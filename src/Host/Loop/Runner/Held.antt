-- ===== src/Host/Loop/Runner/Held.antt =====
-- internal/host/loop.go: what the records of attempts have to do with the workers.
use cloche.Base.{
  ℕ, zero, suc, String, true, false, ◌≡◌, refl, ◌≢◌, sym, ap, ◌∙◌, ◌⊎◌, inl, inr, none, some, List,
  [], ◌∷◌, ◌++◌, ◌==◌, Dict, lookup, insert, lookup-insert, take_at, All, Any, Any-append_left,
  Any-append_right, arith, eq_iff, Option-cases, Bool-cases,
}
use mathlib.Core.Option.{some_inj}
use cloche.Run.{RunState, succeeded}
use cloche.Task.{Attempt, attempt_running, new_attempt, complete, attempt_result_from_run_state}
use cloche.Host.Loop.{Loop}
use cloche.Host.Loop.Attempts.{
  title_run, Store, Saves, create_attempt_for_task, complete_attempt, ensure_task,
}
use cloche.Host.Loop.Runner.{Outcome, panics, returns, track_title, Worker}

-- An attempt is stored under its ID, and where it is recorded as running a worker has that ID.
pub record IsHeld (workers : List Worker) (id : String) (a : Attempt) : Type 0 where
  pub keyed : a.id ≡ id
  pub held : a.result ≡ attempt_running → Any (λ w. w.attempt_id ≡ id) workers

abbrev pub AreHeld : List Worker → Dict Attempt → Type 0
AreHeld workers attempts =
    (id : String) (a : Attempt) → lookup id attempts ≡ some a → IsHeld workers id a

attempt_result_from_run_state_ended :
    (state : RunState) → attempt_result_from_run_state state ≢ attempt_running
unfolding attempt_result_from_run_state
attempt_result_from_run_state_ended succeeded = λ e. cc
attempt_result_from_run_state_ended state = λ e. cc

pub Any-take_at {ℓ} :
    {A : Type ℓ} (P : A → Type 0) (k : ℕ) (xs : List A) (x : A) (rest : List A)
    → take_at k xs ≡ some (x, rest)
    → Any P xs
    → P x ⊎ Any P rest
unfolding take_at
Any-take_at P k [] x rest h any = absurd any
Any-take_at P zero (y ∷ xs) x rest h any =
    let e : (y, xs) ≡ (x, rest) = some_inj.0 h in rw (← ap (λ p. p.0) e, ← ap (λ p. p.1) e) any
Any-take_at P (suc k) (y ∷ xs) x rest h any = elim (Option-cases (take_at k xs)) [
  | inl e ↦ absurd (ground (arith, e, h))
  | inr ((z, zs), e) ↦
      let same : x ≡ z = ground (arith, e, h) in
      let left : rest ≡ y ∷ zs = ground (arith, e, h) in
      rw (same, left)
        (elim any [
          | inl this ↦ inr (inl this)
          | inr later ↦ elim (Any-take_at P k xs z zs e later) [
            | inl that ↦ inl that
            | inr other ↦ inr (inr other)
          ]
        ])
]

attempts-ensure_task :
    (l : Loop) (task_id title : String) (now : ℕ) (saves : Saves) (s : Store)
    → (ensure_task l task_id title now saves s).attempts ≡ s.attempts
unfolding ensure_task
attempts-ensure_task l task_id title now saves s = ground arith

attempts-create_attempt :
    (l : Loop) (id task_id title : String) (now : ℕ) (saves : Saves) (s : Store)
    → ((create_attempt_for_task l id task_id title now saves s).attempts ≡ s.attempts)
      ⊎ ((create_attempt_for_task l id task_id title now saves s).attempts
          ≡ insert id (new_attempt id task_id now) s.attempts)
unfolding create_attempt_for_task new_attempt
attempts-create_attempt l id task_id title now saves s = elim (Bool-cases (task_id == "")) [
  | inl sentinel ↦ inl (ground (arith, sentinel))
  | inr tracked ↦ elim (Bool-cases saves.attempt_saved) [
    | inl saved ↦
        inr (ground (arith, tracked, saved, attempts-ensure_task l task_id title now saves s))
    | inr lost ↦
        inl (ground (arith, tracked, lost, attempts-ensure_task l task_id title now saves s))
  ]
]

kept :
    (workers : List Worker) (newest : Worker) (attempts : Dict Attempt)
    → AreHeld workers attempts
    → AreHeld (workers ++ newest ∷ []) attempts
kept workers newest attempts h asked a found = record {
  keyed = (h asked a found).keyed;
  held = λ runs.
      Any-append_left (λ w. w.attempt_id ≡ asked) workers (newest ∷ [])
        ((h asked a found).held runs);
}

pub create-AreHeld :
    (l : Loop) (id task_id title : String) (now : ℕ) (saves : Saves) (s : Store)
    (workers : List Worker)
    → AreHeld workers s.attempts
    → AreHeld
        (workers ++ record { task_id = task_id; task_title = title; attempt_id = id } ∷ [])
        (create_attempt_for_task l id task_id title now saves s).attempts
unfolding new_attempt
create-AreHeld l id task_id title now saves s workers h asked a found =
    let newest : Worker = record { task_id = task_id; task_title = title; attempt_id = id } in
    elim (attempts-create_attempt l id task_id title now saves s) [
      | inl same ↦ kept workers newest s.attempts h asked a (rw same at found)
      | inr stored ↦ elim (Bool-cases (id == asked)) [
        | inl e ↦
            let this : id ≡ asked = ground (arith, e, eq_iff id asked) in
            let written = lookup-insert id asked (new_attempt id task_id now) s.attempts in
            let made : a ≡ new_attempt id task_id now = ground (arith, found, stored, written, e) in
            record {
              keyed = ap Attempt.id made ∙ this;
              held = λ runs.
                  Any-append_right (λ w. w.attempt_id ≡ asked) workers (newest ∷ []) (inl this);
            }
        | inr e ↦
            let written = lookup-insert id asked (new_attempt id task_id now) s.attempts in
            kept workers newest s.attempts h asked a (ground (arith, found, stored, written, e))
      ]
    ]

attempts-complete_attempt :
    (l : Loop) (id : String) (state : RunState) (now : ℕ) (s : Store)
    → id ≢ ""
    → (complete_attempt l id state now true true s).attempts ≡ (elim (lookup id s.attempts) [
      | none ↦ s.attempts
      | some b ↦ insert b.id (complete now (attempt_result_from_run_state state) b) s.attempts
    ])
unfolding complete_attempt complete
attempts-complete_attempt l id state now s named = ground (arith, eq_iff id "")

-- The attempts of other IDs stay as they are.
untouched :
    (l : Loop) (state : RunState) (now : ℕ) (s : Store) (w : Worker) (asked : String) (a : Attempt)
    → w.attempt_id ≢ ""
    → (w.attempt_id == asked) ≡ false
    → ((b : Attempt) → lookup w.attempt_id s.attempts ≡ some b → b.id ≡ w.attempt_id)
    → lookup asked (complete_attempt l w.attempt_id state now true true s).attempts ≡ some a
    → lookup asked s.attempts ≡ some a
untouched l state now s w asked a named other keyed found =
    let after = attempts-complete_attempt l w.attempt_id state now s named in
    elim (Option-cases (lookup w.attempt_id s.attempts)) [
      | inl absent ↦ ground (arith, absent, found, after)
      | inr (b, present) ↦
          let own = keyed b present in
          let written =
            lookup-insert b.id asked (complete now (attempt_result_from_run_state state) b)
              s.attempts in
          ground (
            arith,
            found,
            after,
            present,
            written,
            eq_iff b.id asked,
            eq_iff w.attempt_id asked,
            own,
            other,
          )
    ]

pub complete-AreHeld :
    (l : Loop) (state : RunState) (now : ℕ) (s : Store) (k : ℕ) (w : Worker)
    (workers others : List Worker)
    → take_at k workers ≡ some (w, others)
    → w.attempt_id ≢ ""
    → AreHeld workers s.attempts
    → AreHeld others (complete_attempt l w.attempt_id state now true true s).attempts
unfolding complete
complete-AreHeld l state now s k w workers others taken named h asked a found =
    let after = attempts-complete_attempt l w.attempt_id state now s named in
    elim (Bool-cases (w.attempt_id == asked)) [
      | inl e ↦
          let this : w.attempt_id ≡ asked = ground (arith, e, eq_iff w.attempt_id asked) in
          elim (Option-cases (lookup w.attempt_id s.attempts)) [
            | inl absent ↦ absurd (ground (arith, absent, found, after, this))
            | inr (b, present) ↦
                let own : b.id ≡ asked = (h w.attempt_id b present).keyed ∙ this in
                let result = attempt_result_from_run_state state in
                let written = lookup-insert b.id asked (complete now result b) s.attempts in
                let made : a ≡ complete now result b =
                  ground (arith, found, after, present, written, eq_iff b.id asked, own) in
                record {
                  keyed = ap Attempt.id made ∙ own;
                  held = λ runs. absurd (
                      attempt_result_from_run_state_ended state
                        (sym (ap Attempt.result made) ∙ runs));
                }
          ]
      | inr e ↦
          let before : lookup asked s.attempts ≡ some a =
            untouched l state now s w asked a named e
              (λ b present. (h w.attempt_id b present).keyed) found in
          record {
            keyed = (h asked a before).keyed;
            held = λ runs.
                elim (Any-take_at (λ v. v.attempt_id ≡ asked) k workers w others taken
                  ((h asked a before).held runs)) [
                    | inl this ↦ absurd (ground (arith, e, eq_iff w.attempt_id asked, this))
                    | inr rest ↦ rest
                  ];
          }
    ]

pub All-take_at {ℓ} :
    {A : Type ℓ} (P : A → Type 0) (k : ℕ) (xs : List A) (x : A) (rest : List A)
    → take_at k xs ≡ some (x, rest)
    → All P xs
    → P x × All P rest
unfolding take_at
All-take_at P k [] x rest h all = absurd (cc)
All-take_at P zero (y ∷ xs) x rest h all =
    let e : (y, xs) ≡ (x, rest) = some_inj.0 h in rw (← ap (λ p. p.0) e, ← ap (λ p. p.1) e) all
All-take_at P (suc k) (y ∷ xs) x rest h all = elim (Option-cases (take_at k xs)) [
  | inl e ↦ absurd (ground (arith, e, h))
  | inr ((z, zs), e) ↦
      let same : x ≡ z = ground (arith, e, h) in
      let left : rest ≡ y ∷ zs = ground (arith, e, h) in
      let (this, others) = All-take_at P k xs z zs e all.1 in
      rw (same, left) (this, (all.0, others))
]

pub attempts-track_title :
    (outcome : Outcome) (title : String) (saves : Saves) (s : Store)
    → (track_title outcome title saves s).attempts ≡ s.attempts
unfolding track_title title_run
attempts-track_title panics title saves s = refl
attempts-track_title (returns none) title saves s = refl
attempts-track_title (returns (some result)) title saves s = ground arith
