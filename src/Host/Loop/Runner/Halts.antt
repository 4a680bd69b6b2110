-- ===== src/Host/Loop/Runner/Halts.antt =====
-- When the loop stops itself.
use cloche.Base.{
  ℕ, ◌≤◌, ◌<◌, true, false, ◌≡◌, ◌↔◌, refl, sym, ap, ◌∙◌, inl, inr, some, List, [], ◌∷◌, All, arith,
  Option-cases,
}
use mathlib.Core.Option.{some_inj}
use cloche.Base.Int.{ℤ, pos, negsuc}
use cloche.Run.{RunState}
use cloche.Host.Loop.{
  LoopConfig, Limits, limits, positive_or, default_max_consecutive_failures, start, new_phase_loop,
}
use cloche.Host.Loop.Attempts.{Store}
use cloche.Host.Loop.Runner.{Stage, looking, ended, Runner, Event, step, replay, begin, not_begun}
use cloche.Host.Loop.Runner.Counted.{
  failures_since, judged, received, is_stop, is_ended, IsCounted, tick-IsCounted, step-IsCounted,
}

replay-IsCounted :
    (config : Limits) (es : List Event) (states : List RunState) (r r' : Runner)
    → config.stop_on_error ≡ false
    → 0 < config.max_consecutive_failures
    → All (λ e. is_stop e ≡ false) es
    → replay es r ≡ some r'
    → IsCounted config states r
    → IsCounted config (received es r states) r'
unfolding replay received
replay-IsCounted config [] states r r' going limit alone h c = rw (← some_inj.0 h) c
replay-IsCounted config (e ∷ es) states r r' going limit alone h c =
    elim (Option-cases (step e r)) [
      | inl stuck ↦ absurd (ground (arith, h, stuck))
      | inr (q, stepped) ↦
          rw (stepped, received)
            (replay-IsCounted config es (judged e r.completions states) q r' going limit alone.1
              (ground (arith, h, stepped))
              (step-IsCounted config states e r q going limit alone.0 stepped c))
    ]

positive_or_pos : (preset : ℕ) (n : ℤ) → 0 < preset → 0 < positive_or preset n
unfolding positive_or
positive_or_pos preset (pos n) h = ground arith
positive_or_pos preset (negsuc n) h = h

limits_positive : (c : LoopConfig) → 0 < (limits c).max_consecutive_failures
unfolding limits
limits_positive c =
    positive_or_pos default_max_consecutive_failures c.max_consecutive_failures (omega arith)

ended_of_is_ended : (s : Stage) → is_ended s ≡ true → s ≡ ended
ended_of_is_ended ended h = refl
ended_of_is_ended looking h = cc
ended_of_is_ended s h = cc

-- Without stop-on-error and while nobody else stops it, the loop ends exactly when it has received as many
-- failures in a row as the configuration allows, the last outcomes it has received: then it is marked as stopped
-- too, and before that it is not.
pub replay-received :
    (es : List Event) (c : LoopConfig) (store : Store) (r : Runner)
    → c.stop_on_error ≡ false
    → All (λ e. is_stop e ≡ false) es
    → replay es (begin c store) ≡ some r
    → ((r.stage ≡ ended)
        ↔ ((limits c).max_consecutive_failures ≤ failures_since (received es (begin c store) [])))
      × ((r.loop.running ≡ false) ↔ (r.stage ≡ ended))
unfolding begin start new_phase_loop failures_since limits
replay-received es c store r going alone h =
    let limit = limits_positive c in
    let begun =
      tick-IsCounted (limits c) [] (not_begun c store) refl refl refl (ground (arith, limit)) in
    let k = replay-IsCounted (limits c) es [] (begin c store) r going limit alone h begun in
    let full = λ (e : r.stage ≡ ended). sym k.ends ∙ ap is_ended e in
    (
      (
        λ e. ground (arith, full e),
        λ enough. ended_of_is_ended r.stage (k.ends ∙ ground (arith, enough)),
      ),
      (
        λ e. ended_of_is_ended r.stage (k.ends ∙ ground (arith, k.runs, e)),
        λ e. ground (arith, full e, k.runs),
      ),
    )
