-- ===== src/Host/Loop/Runner/Counted.antt =====
-- How many failures in a row the loop has received, and that it has counted them.
use cloche.Base.{
  ℕ, suc, ◌-◌, ◌<◌, String, Bool, true, false, not, ◌≡◌, refl, ◌∙◌, inl, inr, Option, none, some,
  List, [], ◌∷◌, leb, take_at, arith, Option-cases,
}
use mathlib.Core.Option.{some_inj}
use cloche.Run.{RunState, succeeded, Run}
use cloche.Host.Loop.{
  Task, Limits, stop, pick_task_from_phase, record_consecutive_failure, reset_consecutive_failures,
}
use cloche.Host.Loop.Runner.Guards.{
  at_look_lem, at_pick_lem, track-IsLike, pick_task_from_phase-IsLike,
}
use cloche.Host.Loop.Attempts.{Saves}
use cloche.Host.Loop.Runner.{
  Stage, looking, picking, staggering, idling, backing_off, waiting, ended, Runner, Completion,
  Outcome, drive_human_polls, refill, tick, look, launch, pick_and_launch, wake, notice_stop, judge,
  receive, track, finish, Event, looks, picks, wakes, notices_stop, receives, finishes, stops, step,
}

-- How many failures stand at the head of the outcomes, newest first.
unfoldable pub failures_since : List RunState → ℕ
failures_since [] = 0
failures_since (succeeded ∷ states) = 0
failures_since (_ ∷ states) = suc (failures_since states)

-- The outcomes that the loop receives, newest first, put before earlier ones.
abbrev pub judged : Event → List Completion → List RunState → List RunState
judged receives (c ∷ cs) earlier = c.state ∷ earlier
judged _ _ earlier = earlier

unfoldable pub received : List Event → Runner → List RunState → List RunState
received [] r earlier = earlier
received (e ∷ es) r earlier = elim (step e r) [
  | none ↦ earlier
  | some r' ↦ received es r' (judged e r.completions earlier)
]

abbrev pub is_stop : Event → Bool
is_stop stops = true
is_stop _ = false

abbrev pub is_ended : Stage → Bool
is_ended ended = true
is_ended _ = false

-- The loop has counted the failures, and runs exactly while they are fewer than the limit.
pub record IsCounted (config : Limits) (states : List RunState) (r : Runner) : Type 0 where
  configured : r.loop.config ≡ config
  counted : r.loop.consecutive_failures ≡ failures_since states
  pub runs : r.loop.running ≡ not (leb config.max_consecutive_failures (failures_since states))
  pub ends : is_ended r.stage ≡ leb config.max_consecutive_failures (failures_since states)

module _ (config : Limits) (states : List RunState) where
  pub tick-IsCounted :
      (r : Runner)
      → r.loop.config ≡ config
      → r.loop.consecutive_failures ≡ failures_since states
      → r.loop.running ≡ true
      → leb config.max_consecutive_failures (failures_since states) ≡ false
      → IsCounted config states (tick r)
  unfolding tick refill
  tick-IsCounted r configured counted runs goes_on = ground arith

  look-IsCounted :
      (r : Runner) (runs : Option (List Run))
      → r.stage ≡ looking
      → IsCounted config states r
      → IsCounted config states (look runs r)
  unfolding look
  look-IsCounted r runs at c = ground arith

  awake :
      (r : Runner)
      → r.loop.config ≡ config
      → r.loop.consecutive_failures ≡ failures_since states
      → r.loop.running ≡ not (leb config.max_consecutive_failures (failures_since states))
      → leb config.max_consecutive_failures (failures_since states) ≡ false
      → IsCounted config states (tick r)
  awake r configured counted runs goes_on =
      tick-IsCounted r configured counted (ground (arith, runs, goes_on)) goes_on

  wake-IsCounted :
      (s : Stage) (r r' : Runner)
      → r.stage ≡ s
      → wake s r ≡ some r'
      → IsCounted config states r
      → IsCounted config states r'
  unfolding wake
  wake-IsCounted staggering r r' at h c =
      rw (← some_inj.0 h) (ground (arith, at, c.configured, c.counted, c.runs, c.ends))
  wake-IsCounted idling r r' at h c =
      rw (← some_inj.0 h)
        (awake (drive_human_polls r) c.configured c.counted c.runs (ground (arith, at, c.ends)))
  wake-IsCounted backing_off r r' at h c =
      rw (← some_inj.0 h)
        (awake (drive_human_polls r) c.configured c.counted c.runs (ground (arith, at, c.ends)))
  wake-IsCounted waiting r r' at h c =
      rw (← some_inj.0 h)
        (awake (drive_human_polls r) c.configured c.counted c.runs (ground (arith, at, c.ends)))
  wake-IsCounted s r r' at h c = cc

  notice_stop-IsCounted :
      (s : Stage) (r r' : Runner)
      → r.stage ≡ s
      → notice_stop s r ≡ some r'
      → IsCounted config states r
      → IsCounted config states r'
  unfolding notice_stop
  notice_stop-IsCounted looking r r' at h c = cc
  notice_stop-IsCounted s r r' at h c = ground (arith, c.runs, c.ends)

  launch-IsCounted :
      (picked : Option Task) (attempt_id : String) (now : ℕ) (saves : Saves) (r : Runner)
      → r.stage ≡ picking
      → IsCounted config states r
      → IsCounted config states (launch picked attempt_id now saves r)
  unfolding launch refill
  launch-IsCounted none attempt_id now saves r at c = ground arith
  launch-IsCounted (some t) attempt_id now saves r at c = ground arith

  judge-IsCounted :
      (state : RunState) (r : Runner)
      → config.stop_on_error ≡ false
      → 0 < config.max_consecutive_failures
      → r.stage ≡ waiting
      → IsCounted config states r
      → IsCounted config (state ∷ states) (judge state r)
  unfolding judge tick refill record_consecutive_failure stop reset_consecutive_failures
      failures_since
  judge-IsCounted succeeded r going limit at c = ground (arith, c.runs, c.ends)
  judge-IsCounted state r going limit at c = ground (arith, c.runs, c.ends)

  receive-IsCounted :
      (s : Stage) (cs : List Completion) (r r' : Runner)
      → config.stop_on_error ≡ false
      → 0 < config.max_consecutive_failures
      → r.stage ≡ s
      → receive s cs r ≡ some r'
      → IsCounted config states r
      → IsCounted config (judged receives cs states) r'
  unfolding receive
  receive-IsCounted waiting (c ∷ cs) r r' going limit at h k = rw (← some_inj.0 h) (
      judge-IsCounted c.state (record r { in_flight = r.in_flight - 1; completions = cs }) going
        limit at
        (record { configured = k.configured; counted = k.counted; runs = k.runs; ends = k.ends }))
  receive-IsCounted s cs r r' going limit at h k = cc

  finish-IsCounted :
      (k : ℕ) (outcome : Outcome) (now : ℕ) (saves : Saves) (r r' : Runner)
      → finish k outcome now saves r ≡ some r'
      → IsCounted config states r
      → IsCounted config states r'
  unfolding finish
  finish-IsCounted k outcome now saves r r' h c = elim (Option-cases (take_at k r.workers)) [
    | inl e ↦ absurd (ground (arith, e, h))
    | inr ((w, others), e) ↦
        let like = track-IsLike outcome w.task_id now r.loop in
        let tracked : r'.loop ≡ track outcome w.task_id now r.loop = ground (arith, e, h) in
        let at : r'.stage ≡ r.stage = ground (arith, e, h) in
        record {
          configured = rw tracked (like.config ∙ c.configured);
          counted = rw tracked (like.failures ∙ c.counted);
          runs = rw tracked (like.running ∙ c.runs);
          ends = rw at c.ends;
        }
  ]

  pub step-IsCounted :
      (e : Event) (r r' : Runner)
      → config.stop_on_error ≡ false
      → 0 < config.max_consecutive_failures
      → is_stop e ≡ false
      → step e r ≡ some r'
      → IsCounted config states r
      → IsCounted config (judged e r.completions states) r'
  unfolding step pick_and_launch
  step-IsCounted (looks runs) r r' going limit alone h c =
      let (at, same) = at_look_lem r.stage (look runs r) r' h in
      rw (← same) (look-IsCounted r runs at c)
  step-IsCounted (picks tasks attempt_id now saves) r r' going limit alone h c =
      let (at, same) = at_pick_lem r.stage (pick_and_launch tasks attempt_id now saves r) r' h in
      let (picked, l) = pick_task_from_phase tasks now r.loop in
      let like = pick_task_from_phase-IsLike tasks now r.loop in
      rw (← same) (
        launch-IsCounted picked attempt_id now saves (record r { loop = l }) at
          (record {
            configured = like.config ∙ c.configured;
            counted = like.failures ∙ c.counted;
            runs = like.running ∙ c.runs;
            ends = c.ends;
          }))
  step-IsCounted wakes r r' going limit alone h c = wake-IsCounted r.stage r r' refl h c
  step-IsCounted notices_stop r r' going limit alone h c =
      notice_stop-IsCounted r.stage r r' refl h c
  step-IsCounted receives r r' going limit alone h c =
      receive-IsCounted r.stage r.completions r r' going limit refl h c
  step-IsCounted (finishes k outcome now saves) r r' going limit alone h c =
      finish-IsCounted k outcome now saves r r' h c
  step-IsCounted stops r r' going limit alone h c = cc
