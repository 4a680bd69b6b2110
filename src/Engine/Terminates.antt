-- ===== src/Engine/Terminates.antt =====
-- `Run` returns under every schedule with as many results as it may launch steps.
use Prim.Native.Nat.{◌≤◌}
use cloche.Base.{
  ℕ, zero, suc, ◌+◌, ◌-◌, ◌%◌, ◌<◌, String, ◌≡◌, refl, ap, ◌∙◌, inl, inr, true, false, none, some,
  List, [], ◌∷◌, ltb, eqb, lookup, length, any, ok, err, arith, Bool-cases, lookup_of_key,
}
use cloche.Base.Int.{pos, eqz}
use cloche.Workflow.{Step, Workflow}
use cloche.Workflow.Validate.{validate}
use cloche.Workflow.Validate.Correct.{validate_sound}
use cloche.Run.{new_run, start}
use cloche.Engine.{
  Engine, Loop, Flight, no_trigger, launch_step, launch_found, workflow_token_limit,
  default_workflow_token_limit,
}
use cloche.Engine.Events.{
  Reply, Event, context_done, arrives, Ended, Turn, handle_result, result_of, turn, conclude, loop,
  initial, or_end, entry_of, run_valid, ran, validated, run,
}
use cloche.Engine.Invariant.{flight_name, IsKeyed, IsKnown, Inv, launch_found-Inv}
use cloche.Engine.Returns.{
  EndsWell, Goes, PendingIn, handle_found-Goes, end_run_failed, Sound-Bounded,
}
use cloche.Engine.Concludes.{take_flight-some, result_of-name, conclude-EndsWell}

module _ (e : Engine) (w : Workflow) (keyed : IsKeyed w) where
  handle_result-Goes :
      (k now : ℕ) (f : Flight) (r : Reply) (s : Loop)
      → IsKnown w f
      → PendingIn e w k (flight_name f) s
      → Goes e (Inv e w k) (handle_result e w now (result_of f r) s)
  unfolding handle_result
  handle_result-Goes k now f r s (step, found) h =
      let name = result_of-name f r in
      rw (ap (λ n. lookup n w.steps) name ∙ found)
        (handle_found-Goes e w keyed k now (result_of f r) s step (rw name h))

  -- One result uses up one of those that may arrive.
  arrives-Goes :
      (k now i : ℕ) (r : Reply) (s : Loop)
      → 0 < s.active_count
      → Inv e w (suc k) s
      → Goes e (Inv e w k) (turn e w (arrives now i r) s)
  unfolding turn
  arrives-Goes k now i r s busy h =
      let busy' : 0 < length s.in_flight = omega (arith, h.counted) in
      let (f, rest, taken, one_less, counts, known, others) =
        take_flight-some w (i % length s.in_flight) s.in_flight (ground arith) h.known in
      rw taken (
        handle_result-Goes k now f r
          (record s { in_flight = rest; active_count = s.active_count - 1 }) known
          (record {
            counted = omega (arith, h.counted);
            bounded = h.bounded;
            credit = omega (arith, h.credit);
            recorded = h.recorded;
            matched = λ n. h.matched n ∙ counts n;
            balanced = h.balanced;
            is_running = h.is_running;
            not_ended = h.not_ended;
            known = others;
          }))

-- How many results a schedule lets arrive.
abbrev pub arrivals : List Event → ℕ
arrivals [] = 0
arrivals (context_done ∷ vs) = arrivals vs
arrivals (arrives now i r ∷ vs) = suc (arrivals vs)

abbrev pub ReturnsWell : Engine → Turn → Type 0
ReturnsWell e t = (x : Ended) × (t ≡ err x) × EndsWell e x

module _ (e : Engine) (w : Workflow) (keyed : IsKeyed w) where
  idle_ReturnsWell :
      (k now : ℕ) (vs : List Event) (s : Loop)
      → Inv e w k s
      → s.active_count ≡ 0
      → ReturnsWell e (loop e w now vs s)
  unfolding loop
  idle_ReturnsWell k now [] s h idle =
      (conclude now s, rw (idle, loop), conclude-EndsWell e w k now s h idle)
  idle_ReturnsWell k now (v ∷ vs) s h idle =
      (conclude now s, rw (idle, loop), conclude-EndsWell e w k now s h idle)

  -- What a turn leads to, the loop leads to.
  go_on :
      (k now : ℕ) (vs : List Event) (s : Loop) (v : Event)
      → eqb s.active_count 0 ≡ false
      → Goes e (λ s'. ReturnsWell e (loop e w now vs s')) (turn e w v s)
      → ReturnsWell e (loop e w now (v ∷ vs) s)
  go_on k now vs s v busy h = unfold loop in rw busy (go (turn e w v s) h)
    where
      go :
          (t : Turn)
          → Goes e (λ s'. ReturnsWell e (loop e w now vs s')) t
          → ReturnsWell e (elim t [ ok s' ↦ loop e w now vs s' | err x ↦ err x ])
      go (ok s') g = g
      go (err x) g = (x, refl, g)

  done_context :
      (s : Loop) (P : Loop → Type 0)
      → P (record s { cancelled = true })
      → Goes e P (turn e w context_done s)
  unfolding turn
  done_context s P h = h

  turn_map : (P Q : Loop → Type 0) (t : Turn) → ((s : Loop) → P s → Q s) → Goes e P t → Goes e Q t
  turn_map P Q (ok s) f h = f s h
  turn_map P Q (err x) f h = h

  loop-ReturnsWell :
      (vs : List Event) (k now : ℕ) (s : Loop)
      → Inv e w k s
      → k ≤ arrivals vs
      → ReturnsWell e (loop e w now vs s)
  loop-ReturnsWell [] k now s h enough =
      idle_ReturnsWell k now [] s h (omega (arith, h.credit, h.bounded))
  loop-ReturnsWell (context_done ∷ vs) k now s h enough = elim (Bool-cases (eqb s.active_count 0)) [
    | inl idle ↦ idle_ReturnsWell k now (context_done ∷ vs) s h (ground (arith, idle))
    | inr busy ↦ go_on k now vs s context_done busy (
        done_context s (λ s'. ReturnsWell e (loop e w now vs s'))
          (loop-ReturnsWell vs k now (record s { cancelled = true }) h enough))
  ]
  loop-ReturnsWell (arrives t i r ∷ vs) zero now s h enough =
      idle_ReturnsWell zero now (arrives t i r ∷ vs) s h (omega (arith, h.credit, h.bounded))
  loop-ReturnsWell (arrives t i r ∷ vs) (suc k) now s h enough =
      elim (Bool-cases (eqb s.active_count 0)) [
        | inl idle ↦ idle_ReturnsWell (suc k) now (arrives t i r ∷ vs) s h (ground (arith, idle))
        | inr busy ↦ go_on (suc k) now vs s (arrives t i r) busy (
            turn_map (Inv e w k) (λ s'. ReturnsWell e (loop e w now vs s'))
              (turn e w (arrives t i r) s) (λ s' h'. loop-ReturnsWell vs k now s' h' (omega arith))
              (arrives-Goes e w keyed k t i r s (ground (arith, busy)) h))
      ]

  initial-Inv : (now : ℕ) (id : String) → Inv e w e.max_steps (initial now id w)
  unfolding initial new_run start any
  initial-Inv now id = record {
    counted = refl;
    bounded = omega arith;
    credit = omega arith;
    recorded = refl;
    matched = λ n. refl;
    balanced = λ n. refl;
    is_running = refl;
    not_ended = refl;
    known = tt;
  }

  -- The launch of the entry step succeeds, and the loop goes on from there.
  started_ReturnsWell :
      (name : String) (now : ℕ) (vs : List Event) (step : Step) (s : Loop)
      → lookup name w.steps ≡ some step
      → s.step_count + 1 ≤ e.max_steps
      → e.max_steps ≤ arrivals vs
      → Inv e w e.max_steps s
      → ReturnsWell e (or_end e w now vs (launch_step e w now name no_trigger s))
  unfolding launch_step
  started_ReturnsWell name now vs step s found room enough h =
      let fits : ltb e.max_steps (s.step_count + 1) ≡ false = ground (arith, room) in
      rw (fits, found)
        (unfold or_end launch_found in
          loop-ReturnsWell vs e.max_steps now _
            (launch_found-Inv e w keyed now no_trigger e.max_steps name s (some step) found room h)
            enough)

  run_valid-ReturnsWell :
      (id : String) (now : ℕ) (vs : List Event) (step : Step)
      → lookup (entry_of e w) w.steps ≡ some step
      → 1 ≤ e.max_steps
      → e.max_steps ≤ arrivals vs
      → ReturnsWell e (run_valid e w id now false vs)
  unfolding run_valid
  run_valid-ReturnsWell id now vs step found room enough =
      let ready = initial-Inv now id in
      elim (Bool-cases (eqz (workflow_token_limit w default_workflow_token_limit) (pos 0))) [
        | inl zero_limit ↦
            rw zero_limit
              (_, refl, end_run_failed e now none (initial now id w) (Sound-Bounded ready))
        | inr limit ↦ rw limit (
            started_ReturnsWell (entry_of e w) now vs step (initial now id w) found
              (unfold initial in omega arith) enough ready)
      ]

-- On a valid workflow whose steps stand under their own names, with no step override, at least one
-- step allowed and a context that is not done yet when the run starts, `Run` returns under every
-- schedule of results and later cancellations in which as many results arrive as it may launch steps. It never dereferences nil, and the run that it returns has
-- at most `max_steps` executions, active steps that are exactly its open executions, a completion
-- time and an end that the status handler was told of once, behind all its other calls; it has
-- failed, or has no active step left and succeeded with no error or was cancelled.
pub run-ReturnsWell :
    (e : Engine) (w : Workflow) (id : String) (now : ℕ) (vs : List Event)
    → IsKeyed w
    → validate w ≡ ok tt
    → e.start_step ≡ ""
    → 1 ≤ e.max_steps
    → e.max_steps ≤ arrivals vs
    → (x : Ended) × (run e w id now false vs ≡ ran (err x)) × EndsWell e x
unfolding run validated entry_of
run-ReturnsWell e w id now vs keyed valid no_override room enough =
    let entry = (validate_sound w valid).entry_found in
    let (step, found) = lookup_of_key w.entry_step w.steps entry in
    let (x, returns, well) =
      run_valid-ReturnsWell e w keyed id now vs step (rw no_override found) room enough in
    (x, rw valid (ap ran returns), well)
