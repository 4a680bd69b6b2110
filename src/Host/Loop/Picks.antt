-- ===== src/Host/Loop/Picks.antt =====
-- Which tasks the loop hands out, and that none is handed out twice in a row too soon.
pub mod First
pub mod Handed
use cloche.Base.{
  ℕ, ◌-◌, ◌≤◌, ◌<◌, String, true, false, not, ◌&&◌, ◌≡◌, ◌≢◌, refl, sym, ap, ◌∙◌, inl, inr, Option,
  none, some, List, [], ◌∷◌, ◌==◌, Dict, lookup, lookup-insert, All, arith, eq_iff, eq_refl,
  Bool-cases, Option-cases,
}
use native.Mathlib.Decide.{dec_lt}
use cloche.Host.Loop.{
  Task, Loop, Limits, is_open, is_assigned, unexpired, pick, assign, pick_task_from_phase,
}

-- One call of `pickTaskFromPhase`: what list-tasks returned, and when.
pub record Round : Type 0 where
  pub tasks : Option (List Task)
  pub now : ℕ

unfoldable pub rounds : List Round → Loop → Loop
rounds [] l = l
rounds (r ∷ rs) l = rounds rs (pick_task_from_phase r.tasks r.now l).1

lookup-unexpired :
    (now timeout : ℕ) (id : String) (ts : ℕ) (dedup : Dict ℕ)
    → lookup id dedup ≡ some ts
    → now - ts < timeout
    → lookup id (unexpired now timeout dedup) ≡ some ts
unfolding lookup unexpired
lookup-unexpired now timeout id ts [] h fresh = cc
lookup-unexpired now timeout id ts ((j, u) ∷ dedup) h fresh =
    ground (arith, lookup-unexpired now timeout id ts dedup)

-- A task that is handed out is the sentinel, or open and not assigned.
pub record IsFree (now timeout : ℕ) (dedup : Dict ℕ) (t : Task) : Type 0 where
  pub open_or_sentinel : (t.id ≢ "") → is_open t ≡ true
  pub unassigned : (t.id ≢ "") → is_assigned now timeout dedup t.id ≡ false

pick-IsFree :
    (now timeout : ℕ) (dedup : Dict ℕ) (tasks : List Task) (t : Task)
    → pick now timeout dedup tasks ≡ some t
    → IsFree now timeout dedup t
unfolding pick
pick-IsFree now timeout dedup [] t h = cc
pick-IsFree now timeout dedup (u ∷ tasks) t h = elim (Bool-cases (u.id == "")) [
  | inl sentinel ↦
      let same : u ≡ t = ground (arith, h, sentinel) in
      rw (← same) (record {
        open_or_sentinel = λ named. absurd (named ((eq_iff u.id "").0 sentinel));
        unassigned = λ named. absurd (named ((eq_iff u.id "").0 sentinel));
      })
  | inr named ↦ elim (Bool-cases (is_open u && not (is_assigned now timeout dedup u.id))) [
    | inl free ↦
        let same : u ≡ t = ground (arith, h, named, free) in
        rw (← same) (record {
          open_or_sentinel = λ n. ground (arith, free);
          unassigned = λ n. ground (arith, free);
        })
    | inr taken ↦ pick-IsFree now timeout dedup tasks t (ground (arith, h, named, taken))
  ]
]

assign_keeps :
    (now timeout : ℕ) (dedup : Dict ℕ) (t : Task) (id : String) (ts : ℕ)
    → ((t.id ≢ "") → is_assigned now timeout dedup t.id ≡ false)
    → now - ts < timeout
    → lookup id dedup ≡ some ts
    → lookup id (assign now (some t) dedup) ≡ some ts
unfolding assign is_assigned
assign_keeps now timeout dedup t id ts free fresh h = elim (Bool-cases (t.id == "")) [
  | inl sentinel ↦ rw sentinel h
  | inr named ↦ elim (Bool-cases (t.id == id)) [
    | inl e ↦
        let same : t.id ≡ id = (eq_iff t.id id).0 e in
        let unassigned = free (λ empty. ground (arith, named, empty, eq_iff t.id "")) in
        absurd (ground (arith, same, unassigned, h, fresh))
    | inr e ↦ ground (arith, named, e, h, lookup-insert t.id id now dedup)
  ]
]

-- While an assignment has not expired it stays written down, as it was made.
pick_task_from_phase_keeps :
    (tasks : Option (List Task)) (now : ℕ) (l : Loop) (id : String) (ts : ℕ)
    → id ≢ ""
    → lookup id l.dedup ≡ some ts
    → now - ts < l.config.dedup_timeout
    → lookup id (pick_task_from_phase tasks now l).1.dedup ≡ some ts
unfolding pick_task_from_phase
pick_task_from_phase_keeps none now l id ts named h fresh = h
pick_task_from_phase_keeps (some tasks) now l id ts named h fresh =
    let dedup = unexpired now l.config.dedup_timeout l.dedup in
    let here = lookup-unexpired now l.config.dedup_timeout id ts l.dedup h fresh in
    elim (Option-cases (pick now l.config.dedup_timeout dedup tasks)) [
      | inl none_free ↦ rw none_free (unfold assign in here)
      | inr (t, picked) ↦
          let free = (pick-IsFree now l.config.dedup_timeout dedup tasks t picked).unassigned in
          rw picked (assign_keeps now l.config.dedup_timeout dedup t id ts free fresh here)
    ]

config-pick :
    (tasks : Option (List Task)) (now : ℕ) (l : Loop)
    → (pick_task_from_phase tasks now l).1.config ≡ l.config
unfolding pick_task_from_phase
config-pick none now l = refl
config-pick (some tasks) now l = refl

-- The written assignment of a task, where it has been handed out and the timeout has not passed.
rounds_keep :
    (rs : List Round) (l : Loop) (id : String) (ts end timeout : ℕ)
    → id ≢ ""
    → l.config.dedup_timeout ≡ timeout
    → All (λ r. r.now ≤ end) rs
    → end - ts < timeout
    → lookup id l.dedup ≡ some ts
    → (lookup id (rounds rs l).dedup ≡ some ts) × ((rounds rs l).config.dedup_timeout ≡ timeout)
unfolding rounds
rounds_keep [] l id ts end timeout named same early fresh h = (h, same)
rounds_keep (r ∷ rs) l id ts end timeout named same early fresh h =
    let config = ap Limits.dedup_timeout (config-pick r.tasks r.now l) in
    rounds_keep rs (pick_task_from_phase r.tasks r.now l).1 id ts end timeout named (config ∙ same)
      early.1 fresh
      (pick_task_from_phase_keeps r.tasks r.now l id ts named h
        (omega (arith, early.0, fresh, same)))

-- What has just been handed out is written down, unless it is the sentinel.
assigned_now :
    (tasks : Option (List Task)) (now : ℕ) (l : Loop) (t : Task)
    → (pick_task_from_phase tasks now l).0 ≡ some t
    → t.id ≢ ""
    → lookup t.id (pick_task_from_phase tasks now l).1.dedup ≡ some now
unfolding pick_task_from_phase assign
assigned_now none now l t h named = cc
assigned_now (some tasks) now l t h named = rw h (
    ground (
      arith,
      eq_iff t.id "",
      named,
      eq_refl t.id,
      lookup-insert t.id t.id now (unexpired now l.config.dedup_timeout l.dedup),
    ))

not_again :
    (tasks : Option (List Task)) (now : ℕ) (l : Loop) (t : Task) (ts : ℕ)
    → (pick_task_from_phase tasks now l).0 ≡ some t
    → t.id ≢ ""
    → lookup t.id l.dedup ≡ some ts
    → now - ts < l.config.dedup_timeout
    → ⊥
unfolding pick_task_from_phase is_assigned
not_again none now l t ts h named kept fresh = cc
not_again (some tasks) now l t ts h named kept fresh =
    let dedup = unexpired now l.config.dedup_timeout l.dedup in
    let here = lookup-unexpired now l.config.dedup_timeout t.id ts l.dedup kept fresh in
    let free = (pick-IsFree now l.config.dedup_timeout dedup tasks t h).unassigned named in
    ground (arith, free, here, fresh)

-- A task of the tracker that has been handed out is not handed out again before the dedup timeout has passed,
-- whatever the tracker lists meanwhile and whatever else is handed out, while the clock does not run ahead of
-- the second time.
pub pick_task_from_phase-rounds :
    (tasks tasks' : Option (List Task)) (now now' : ℕ) (rs : List Round) (l : Loop) (t t' : Task)
    → (pick_task_from_phase tasks now l).0 ≡ some t
    → t.id ≢ ""
    → All (λ r. r.now ≤ now') rs
    → (pick_task_from_phase tasks' now' (rounds rs (pick_task_from_phase tasks now l).1)).0
      ≡ some t'
    → t'.id ≡ t.id
    → l.config.dedup_timeout ≤ now' - now
pick_task_from_phase-rounds tasks tasks' now now' rs l t t' first named early second same =
    elim (dec_lt (now' - now) l.config.dedup_timeout) [
      | no late ↦ omega (arith, late)
      | yes fresh ↦
          let l' = (pick_task_from_phase tasks now l).1 in
          let (kept, timeout) =
            rounds_keep rs l' t.id now now' l.config.dedup_timeout named
              (ap Limits.dedup_timeout (config-pick tasks now l)) early fresh
              (assigned_now tasks now l t first named) in
          absurd (
            not_again tasks' now' (rounds rs l') t' now second (λ e. named (sym same ∙ e))
              (rw same kept) (rw timeout fresh))
    ]
