-- ===== src/Host/Loop/Runner/Stops.antt =====
-- What the loop still does after it was stopped.
use cloche.Base.{
  ℕ, suc, ◌+◌, ◌-◌, ◌≤◌, String, false, ◌≡◌, refl, ◌∙◌, inl, inr, Option, none, some, List, [], ◌∷◌,
  length, take_at, arith, Option-cases,
}
use mathlib.Core.Option.{some_inj}
use cloche.Run.{RunState, succeeded, Run}
use cloche.Host.Loop.{
  Task, LoopConfig, Limits, limits, stop, pick_task_from_phase, record_consecutive_failure,
  reset_consecutive_failures,
}
use cloche.Host.Loop.Attempts.{Store, Saves}
use cloche.Host.Loop.Runner.{
  Stage, looking, picking, staggering, idling, backing_off, waiting, Runner, Completion, Outcome,
  drive_human_polls, refill, tick, look, launch, pick_and_launch, wake, notice_stop, judge, receive,
  track, finish, Event, looks, picks, wakes, notices_stop, receives, finishes, stops, step, replay,
  begin,
}
use cloche.Host.Loop.Runner.Bounded.{
  IsBounded, step-IsBounded, replay-IsBounded_from, begin-IsBounded,
}
use cloche.Host.Loop.Runner.Guards.{
  at_look_lem, at_pick_lem, track-IsLike, pick_task_from_phase-IsLike,
}
use cloche.Host.Loop.Runner.Counted.{judged, received}

-- A launch that is behind the stop check.
abbrev ahead : Stage → ℕ
ahead picking = 1
ahead staggering = 1
ahead _ = 0

ahead_one : (s : Stage) → ahead s ≤ 1
ahead_one picking = omega arith
ahead_one staggering = omega arith
ahead_one s = omega arith

-- The loop is stopped, and has launched at most so many runs: those in flight, those received, and one ahead.
record IsStopped (bound : ℕ) (states : List RunState) (r : Runner) : Type 0 where
  stopped : r.loop.running ≡ false
  launches : r.in_flight + length states + ahead r.stage ≤ bound

module _ (bound : ℕ) (states : List RunState) where
  tick-IsStopped :
      (r : Runner)
      → r.loop.running ≡ false
      → r.in_flight + length states ≤ bound
      → IsStopped bound states (tick r)
  unfolding tick refill
  tick-IsStopped r h k = ground arith

  look-IsStopped :
      (runs : Option (List Run)) (r : Runner)
      → IsStopped bound states r
      → IsStopped bound states (look runs r)
  unfolding look
  look-IsStopped runs r s = ground (arith, s.stopped, s.launches)

  wake-IsStopped :
      (s : Stage) (r r' : Runner)
      → r.stage ≡ s
      → wake s r ≡ some r'
      → IsStopped bound states r
      → IsStopped bound states r'
  unfolding wake
  wake-IsStopped staggering r r' at h k =
      rw (← some_inj.0 h) (ground (arith, at, k.stopped, k.launches))
  wake-IsStopped idling r r' at h k =
      rw (← some_inj.0 h)
        (tick-IsStopped (drive_human_polls r) k.stopped (omega (arith, k.launches)))
  wake-IsStopped backing_off r r' at h k =
      rw (← some_inj.0 h)
        (tick-IsStopped (drive_human_polls r) k.stopped (omega (arith, k.launches)))
  wake-IsStopped waiting r r' at h k =
      rw (← some_inj.0 h)
        (tick-IsStopped (drive_human_polls r) k.stopped (omega (arith, k.launches)))
  wake-IsStopped s r r' at h k = cc

  notice_stop-IsStopped :
      (s : Stage) (r r' : Runner)
      → notice_stop s r ≡ some r'
      → IsStopped bound states r
      → IsStopped bound states r'
  unfolding notice_stop
  notice_stop-IsStopped looking r r' h k = cc
  notice_stop-IsStopped s r r' h k = ground (arith, k.stopped, k.launches)

  launch-IsStopped :
      (picked : Option Task) (attempt_id : String) (now : ℕ) (saves : Saves) (r : Runner)
      → r.stage ≡ picking
      → IsStopped bound states r
      → IsStopped bound states (launch picked attempt_id now saves r)
  unfolding launch refill
  launch-IsStopped none attempt_id now saves r at k = ground (arith, k.stopped, k.launches)
  launch-IsStopped (some t) attempt_id now saves r at k = ground (arith, k.stopped, k.launches)

  judge-IsStopped :
      (state : RunState) (r : Runner)
      → r.loop.running ≡ false
      → r.in_flight + suc (length states) ≤ bound
      → IsStopped bound (state ∷ states) (judge state r)
  unfolding judge tick refill record_consecutive_failure stop reset_consecutive_failures
  judge-IsStopped succeeded r h k = ground arith
  judge-IsStopped state r h k = ground arith

  receive-IsStopped :
      (s : Stage) (cs : List Completion) (r r' : Runner)
      → length cs ≤ r.in_flight
      → receive s cs r ≡ some r'
      → r.stage ≡ s
      → IsStopped bound states r
      → IsStopped bound (judged receives cs states) r'
  unfolding receive
  receive-IsStopped waiting (c ∷ cs) r r' sent h at k = rw (← some_inj.0 h) (
      judge-IsStopped c.state (record r { in_flight = r.in_flight - 1; completions = cs }) k.stopped
        (omega (arith, k.launches, sent)))
  receive-IsStopped s cs r r' sent h at k = cc

  finish-IsStopped :
      (k : ℕ) (outcome : Outcome) (now : ℕ) (saves : Saves) (r r' : Runner)
      → finish k outcome now saves r ≡ some r'
      → IsStopped bound states r
      → IsStopped bound states r'
  unfolding finish
  finish-IsStopped k outcome now saves r r' h s = elim (Option-cases (take_at k r.workers)) [
    | inl e ↦ absurd (ground (arith, e, h))
    | inr ((w, others), e) ↦
        let like = track-IsLike outcome w.task_id now r.loop in
        let tracked : r'.loop ≡ track outcome w.task_id now r.loop = ground (arith, e, h) in
        let at : r'.stage ≡ r.stage = ground (arith, e, h) in
        let same : r'.in_flight ≡ r.in_flight = ground (arith, e, h) in
        record {
          stopped = rw tracked (like.running ∙ s.stopped);
          launches = rw (at, same) s.launches;
        }
  ]

  step-IsStopped :
      (e : Event) (r r' : Runner)
      → length r.completions ≤ r.in_flight
      → step e r ≡ some r'
      → IsStopped bound states r
      → IsStopped bound (judged e r.completions states) r'
  unfolding step pick_and_launch stop
  step-IsStopped (looks runs) r r' sent h k =
      rw (← (at_look_lem r.stage (look runs r) r' h).1) (look-IsStopped runs r k)
  step-IsStopped (picks tasks attempt_id now saves) r r' sent h k =
      let (at, same) = at_pick_lem r.stage (pick_and_launch tasks attempt_id now saves r) r' h in
      let (picked, l) = pick_task_from_phase tasks now r.loop in
      let like = pick_task_from_phase-IsLike tasks now r.loop in
      rw (← same) (
        launch-IsStopped picked attempt_id now saves (record r { loop = l }) at
          (record { stopped = like.running ∙ k.stopped; launches = k.launches }))
  step-IsStopped wakes r r' sent h k = wake-IsStopped r.stage r r' refl h k
  step-IsStopped notices_stop r r' sent h k = notice_stop-IsStopped r.stage r r' h k
  step-IsStopped receives r r' sent h k = receive-IsStopped r.stage r.completions r r' sent h refl k
  step-IsStopped (finishes n outcome now saves) r r' sent h k =
      finish-IsStopped n outcome now saves r r' h k
  step-IsStopped stops r r' sent h k =
      rw (← some_inj.0 h) (record { stopped = refl; launches = k.launches })

replay-IsStopped :
    (config : Limits) (bound : ℕ) (es : List Event) (states : List RunState) (r r' : Runner)
    → IsBounded config r
    → replay es r ≡ some r'
    → IsStopped bound states r
    → IsStopped bound (received es r states) r'
unfolding replay received
replay-IsStopped config bound [] states r r' b h k = rw (← some_inj.0 h) k
replay-IsStopped config bound (e ∷ es) states r r' b h k = elim (Option-cases (step e r)) [
  | inl stuck ↦ absurd (ground (arith, h, stuck))
  | inr (q, stepped) ↦
      rw (stepped, received)
        (replay-IsStopped config bound es (judged e r.completions states) q r'
          (step-IsBounded config e r q b stepped) (ground (arith, h, stepped))
          (step-IsStopped bound states e r q (omega (arith, b.counted)) stepped k))
]

-- Once the loop is stopped it stays stopped, and it launches at most one more run, the one whose stop check was made
-- before: those in flight at any later time and those received meanwhile are at most one more than were in flight.
pub replay-stopped :
    (es es' : List Event) (c : LoopConfig) (store : Store) (r r' : Runner)
    → replay es (begin c store) ≡ some r
    → r.loop.running ≡ false
    → replay es' r ≡ some r'
    → (r'.loop.running ≡ false) × (r'.in_flight + length (received es' r []) ≤ r.in_flight + 1)
replay-stopped es es' c store r r' h off h' =
    let b = replay-IsBounded_from (limits c) es (begin c store) r (begin-IsBounded c store) h in
    let k =
      replay-IsStopped (limits c) (r.in_flight + 1) es' [] r r' b h'
        (record { stopped = off; launches = omega (arith, ahead_one r.stage) }) in
    (k.stopped, omega (arith, k.launches))
