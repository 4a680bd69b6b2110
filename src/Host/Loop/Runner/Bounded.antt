-- ===== src/Host/Loop/Runner/Bounded.antt =====
-- How many runs the loop has in flight, and why no worker waits to report.
use cloche.Base.{
  ℕ, zero, suc, ◌+◌, ◌-◌, ◌≤◌, ◌<◌, String, true, ◌≡◌, ◌≢◌, refl, ◌∙◌, ap, inl, inr, Option, none,
  some, List, [], ◌∷◌, ◌++◌, ltb, length, length-append, take_at, arith, Option-cases, Bool-cases,
}
use cloche.Run.{RunState, succeeded, Run}
use cloche.Host.Loop.{
  Task, LoopConfig, Limits, limits, start, stop, new_phase_loop, pick_task_from_phase,
  record_consecutive_failure, reset_consecutive_failures,
}
use mathlib.Core.Option.{some_inj}
use cloche.Host.Loop.Runner.Guards.{
  at_look_lem, at_pick_lem, track-IsLike, pick_task_from_phase-IsLike,
}
use cloche.Host.Loop.Attempts.{Store, Saves, complete_attempt}
use cloche.Host.Loop.Runner.{
  Stage, looking, picking, staggering, idling, backing_off, waiting, ended, Runner, Worker,
  final_state, track_title, Completion, Outcome, drive_human_polls, settle, refill, tick, look,
  launch, pick_and_launch, wake, notice_stop, judge, receive, track, finish, Event, looks, picks,
  wakes, notices_stop, receives, finishes, stops, step, replay, begin, not_begun,
}

-- Behind the test of the inner loop there is room for one more.
abbrev pub headroom : Stage → ℕ
headroom looking = 1
headroom picking = 1
headroom staggering = 1
headroom _ = 0

pub record IsBounded (config : Limits) (r : Runner) : Type 0 where
  pub configured : r.loop.config ≡ config
  pub counted : r.in_flight ≡ length r.workers + length r.completions
  pub below : r.in_flight + headroom r.stage ≤ config.max_concurrent

module _ (config : Limits) (r : Runner) (configured : r.loop.config ≡ config)
    (counted : r.in_flight ≡ length r.workers + length r.completions)
    (below : r.in_flight ≤ config.max_concurrent) where
  settle-IsBounded : IsBounded config (settle r)
  settle-IsBounded = ground arith

  refill-IsBounded : IsBounded config (refill r)
  unfolding refill
  refill-IsBounded = ground arith

  tick-IsBounded : IsBounded config (tick r)
  unfolding tick refill
  tick-IsBounded = ground arith

  judge-IsBounded : (state : RunState) → IsBounded config (judge state r)
  unfolding judge tick refill record_consecutive_failure stop reset_consecutive_failures
  judge-IsBounded succeeded = ground arith
  judge-IsBounded state = ground arith

length-take_at {ℓ} :
    {A : Type ℓ} (k : ℕ) (xs : List A) (x : A) (rest : List A)
    → take_at k xs ≡ some (x, rest)
    → length xs ≡ suc (length rest)
unfolding take_at
length-take_at k [] x rest h = cc
length-take_at zero (y ∷ xs) x rest h = let same : xs ≡ rest = cc in omega (arith, ap length same)
length-take_at (suc k) (y ∷ xs) x rest h = elim (Option-cases (take_at k xs)) [
  | inl e ↦ absurd (ground (arith, e, h))
  | inr ((z, zs), e) ↦
      let same : y ∷ zs ≡ rest = ground (arith, e, h) in
      omega (arith, ap length same, length-take_at k xs z zs e)
]

-- What a worker leaves that can send.
finished :
    (k : ℕ) (outcome : Outcome) (now : ℕ) (saves : Saves) (r r' : Runner) (w : Worker)
    (others : List Worker)
    → take_at k r.workers ≡ some (w, others)
    → ltb (length r.completions) r.loop.config.max_concurrent ≡ true
    → finish k outcome now saves r ≡ some r'
    → some (record r {
      loop = track outcome w.task_id now r.loop;
      store =
          complete_attempt r.loop w.attempt_id
            (final_state outcome)
            now
            saves.attempt_read
            saves.attempt_saved
            (track_title outcome w.task_title saves r.store);
      workers = others;
      completions =
          r.completions ++ record { task_id = w.task_id; state = final_state outcome } ∷ [];
    })
      ≡ some r'
unfolding finish
finished k outcome now saves r r' w others e room h = ground (arith, e, room, h)

module _ (config : Limits) where
  look-IsBounded :
      (runs : Option (List Run)) (r : Runner)
      → IsBounded config r
      → r.stage ≡ looking
      → IsBounded config (look runs r)
  unfolding look
  look-IsBounded runs r b h = ground arith

  launch-IsBounded :
      (picked : Option Task) (attempt_id : String) (now : ℕ) (saves : Saves) (r : Runner)
      → r.in_flight ≡ length r.workers + length r.completions
      → r.in_flight < config.max_concurrent
      → r.loop.config ≡ config
      → IsBounded config (launch picked attempt_id now saves r)
  unfolding launch refill
  launch-IsBounded none attempt_id now saves r counted below configured = ground arith
  launch-IsBounded (some t) attempt_id now saves r counted below configured = ground (
    arith,
    length-append r.workers
        (record { task_id = t.id; task_title = t.title; attempt_id = attempt_id } ∷ []),
  )

  pick_and_launch-IsBounded :
      (tasks : Option (List Task)) (attempt_id : String) (now : ℕ) (saves : Saves) (r : Runner)
      → r.stage ≡ picking
      → IsBounded config r
      → IsBounded config (pick_and_launch tasks attempt_id now saves r)
  unfolding pick_and_launch
  pick_and_launch-IsBounded tasks attempt_id now saves r at b =
      let same = (pick_task_from_phase-IsLike tasks now r.loop).config in
      let room : r.in_flight < config.max_concurrent = ground (arith, at, b.below) in
      launch-IsBounded (pick_task_from_phase tasks now r.loop).0 attempt_id now saves
        (record r { loop = (pick_task_from_phase tasks now r.loop).1 }) b.counted room
        (same ∙ b.configured)

  wake-IsBounded :
      (s : Stage) (r r' : Runner)
      → r.stage ≡ s
      → IsBounded config r
      → wake s r ≡ some r'
      → IsBounded config r'
  unfolding wake
  wake-IsBounded staggering r r' at b h =
      rw (← some_inj.0 h) (ground (arith, at, b.below, b.counted))
  wake-IsBounded idling r r' at b h =
      rw (← some_inj.0 h) (
        tick-IsBounded config (drive_human_polls r) b.configured b.counted (omega (arith, b.below)))
  wake-IsBounded backing_off r r' at b h =
      rw (← some_inj.0 h) (
        tick-IsBounded config (drive_human_polls r) b.configured b.counted (omega (arith, b.below)))
  wake-IsBounded waiting r r' at b h =
      rw (← some_inj.0 h) (
        tick-IsBounded config (drive_human_polls r) b.configured b.counted (omega (arith, b.below)))
  wake-IsBounded looking r r' at b h = cc
  wake-IsBounded picking r r' at b h = cc
  wake-IsBounded ended r r' at b h = cc

  notice_stop-IsBounded :
      (s : Stage) (r r' : Runner)
      → IsBounded config r
      → notice_stop s r ≡ some r'
      → IsBounded config r'
  unfolding notice_stop
  notice_stop-IsBounded looking r r' b h = cc
  notice_stop-IsBounded s r r' b h = ground (arith, b.below, b.counted)

  receive-IsBounded :
      (s : Stage) (cs : List Completion) (r r' : Runner)
      → r.completions ≡ cs
      → IsBounded config r
      → receive s cs r ≡ some r'
      → IsBounded config r'
  unfolding receive
  receive-IsBounded waiting (c ∷ cs) r r' e b h =
      let whole = ap length e in
      rw (← some_inj.0 h) (
        judge-IsBounded config (record r { in_flight = r.in_flight - 1; completions = cs })
          b.configured (omega (arith, whole, b.counted)) (omega (arith, b.below)) c.state)
  receive-IsBounded s cs r r' e b h = cc

  finish-IsBounded :
      (k : ℕ) (outcome : Outcome) (now : ℕ) (saves : Saves) (r r' : Runner)
      → IsBounded config r
      → finish k outcome now saves r ≡ some r'
      → IsBounded config r'
  unfolding finish
  finish-IsBounded k outcome now saves r r' b h = elim (Option-cases (take_at k r.workers)) [
    | inl e ↦ absurd (ground (arith, e, h))
    | inr ((w, others), e) ↦
        let fewer = length-take_at k r.workers w others e in
        let one =
          length-append r.completions
            (record { task_id = w.task_id; state = final_state outcome } ∷ []) in
        elim (Bool-cases (ltb (length r.completions) r.loop.config.max_concurrent)) [
          | inl room ↦
              rw (← some_inj.0 (finished k outcome now saves r r' w others e room h)) (record {
                configured = (track-IsLike outcome w.task_id now r.loop).config ∙ b.configured;
                counted = omega (arith, b.counted, fewer, one);
                below = b.below;
              })
          | inr full ↦ absurd (ground (arith, e, h, full))
        ]
  ]

  pub step-IsBounded :
      (e : Event) (r r' : Runner) → IsBounded config r → step e r ≡ some r' → IsBounded config r'
  unfolding step
  step-IsBounded (looks runs) r r' b h =
      let (at, same) = at_look_lem r.stage (look runs r) r' h in
      rw (← same) (look-IsBounded runs r b at)
  step-IsBounded (picks tasks attempt_id now saves) r r' b h =
      let (at, same) = at_pick_lem r.stage (pick_and_launch tasks attempt_id now saves r) r' h in
      rw (← same) (pick_and_launch-IsBounded tasks attempt_id now saves r at b)
  step-IsBounded wakes r r' b h = wake-IsBounded r.stage r r' refl b h
  step-IsBounded notices_stop r r' b h = notice_stop-IsBounded r.stage r r' b h
  step-IsBounded receives r r' b h = receive-IsBounded r.stage r.completions r r' refl b h
  step-IsBounded (finishes k outcome now saves) r r' b h =
      finish-IsBounded k outcome now saves r r' b h
  step-IsBounded stops r r' b h =
      rw (← some_inj.0 h)
        (record { configured = unfold stop in b.configured; counted = b.counted; below = b.below })

  pub replay-IsBounded_from :
      (es : List Event) (r r' : Runner)
      → IsBounded config r
      → replay es r ≡ some r'
      → IsBounded config r'
  unfolding replay
  replay-IsBounded_from [] r r' b h = rw (← some_inj.0 h) b
  replay-IsBounded_from (e ∷ es) r r' b h = elim (Option-cases (step e r)) [
    | inl stuck ↦ absurd (ground (arith, h, stuck))
    | inr (q, stepped) ↦
        replay-IsBounded_from es q r' (step-IsBounded e r q b stepped) (ground (arith, h, stepped))
  ]

pub begin-IsBounded : (c : LoopConfig) (store : Store) → IsBounded (limits c) (begin c store)
unfolding begin start new_phase_loop
begin-IsBounded c store =
    tick-IsBounded (limits c) (not_begun c store) refl (omega arith) (omega arith)

-- At every moment the runs in flight are the workers that still run and those whose completion has not been
-- received, and there are at most as many as the configuration allows at once.
pub replay-IsBounded :
    (es : List Event) (c : LoopConfig) (store : Store) (r : Runner)
    → replay es (begin c store) ≡ some r
    → (r.in_flight ≡ length r.workers + length r.completions)
      × (r.in_flight ≤ (limits c).max_concurrent)
replay-IsBounded es c store r h =
    let b = replay-IsBounded_from (limits c) es (begin c store) r (begin-IsBounded c store) h in
    (b.counted, omega (arith, b.below))

take_at_lt {ℓ} : {A : Type ℓ} (k : ℕ) (xs : List A) → k < length xs → take_at k xs ≢ none
unfolding take_at
take_at_lt k [] h = absurd (omega arith)
take_at_lt zero (x ∷ xs) h = λ e. cc
take_at_lt (suc k) (x ∷ xs) h = elim (Option-cases (take_at k xs)) [
  | inl e ↦ absurd (take_at_lt k xs (omega (arith, h)) e)
  | inr ((y, ys), e) ↦ λ gone. ground (arith, e, gone)
]

-- A worker never blocks when it reports, whatever the loop is doing and also when it has ended: wherever a
-- worker runs, its end can be the next event.
pub replay-finish :
    (es : List Event) (c : LoopConfig) (store : Store) (r : Runner) (k : ℕ) (outcome : Outcome)
    (now : ℕ) (saves : Saves)
    → replay es (begin c store) ≡ some r
    → k < length r.workers
    → (r' : Runner) × (finish k outcome now saves r ≡ some r')
unfolding finish
replay-finish es c store r k outcome now saves h lt =
    let b = replay-IsBounded_from (limits c) es (begin c store) r (begin-IsBounded c store) h in
    let room : length r.completions < r.loop.config.max_concurrent =
      omega (arith, b.counted, b.below, lt, ap Limits.max_concurrent b.configured) in
    elim (Option-cases (finish k outcome now saves r)) [
      | inl blocked ↦ elim (Option-cases (take_at k r.workers)) [
        | inl e ↦ absurd (take_at_lt k r.workers lt e)
        | inr ((w, others), e) ↦ absurd (ground (arith, blocked, e, room))
      ]
      | inr (r', e) ↦ (r', e)
    ]
