-- ===== src/Tests/Evolution.antt =====
-- The theorems about the evolution of prompts on concrete data.
use cloche.Base.{ℕ, String, true, false, ◌≡◌, ◌↔◌, refl, List, [], ◌∷◌, Any, any, ltb, leb, arith}
use cloche.Base.Int.{pos}
use cloche.Run.{Run, new_run, record_start}
use cloche.Evolution.Trigger.{
  Event, fires, elapses, calls_back, runs_func, stops, new_trigger, stop, replay,
}
use cloche.Evolution.Trigger.Released.{CallsDue}
use cloche.Evolution.Trigger.Stops.{
  IsPrompt, nothing, then_fires, then_elapses, then_runs, fires_none, IsWaiting, replay-stop,
}
use cloche.Evolution.Fitness.{
  FloatOrder, CandidateFitness, dominates, compute_pareto_front, evaluate_run,
}
use cloche.Evolution.Fitness.Front.{compute_pareto_front_lem}

abbrev schedule : List Event
schedule =
    fires "p" "w" "r1"
    ∷ fires "p" "w" "r2"
    ∷ elapses 1
    ∷ calls_back 1
    ∷ runs_func 1
    ∷ fires "p" "w" "r3"
    ∷ []

schedule-IsPrompt : IsPrompt schedule
schedule-IsPrompt = then_fires "p" "w" "r1" _ (
    then_fires "p" "w" "r2" _
      (then_elapses 1 _ (then_runs 1 _ (then_fires "p" "w" "r3" [] nothing))))

replay-stop_example :
    ((key : String) (i j : ℕ)
      → IsWaiting i key (replay schedule (new_trigger (pos 5)))
      → IsWaiting j key (replay schedule (new_trigger (pos 5)))
      → i ≡ j)
    × ((fs : List Event)
        → fires_none fs ≡ true
        → CallsDue
            (replay schedule (new_trigger (pos 5)))
            (replay fs (stop (replay schedule (new_trigger (pos 5))))))
replay-stop_example = replay-stop (pos 5) schedule schedule-IsPrompt

-- Stop comes between the release of the lock and the call.
call_after_stop :
    (replay
      (fires "p" "w" "r1" ∷ elapses 0 ∷ calls_back 0 ∷ stops ∷ runs_func 0 ∷ [])
      (new_trigger (pos 5))).calls
    ≡ ("p", "w", "r1") ∷ []
unfolding replay new_trigger
call_after_stop = refl

-- Only the last of the two runs is passed on.
schedule_calls : (replay schedule (new_trigger (pos 5))).calls ≡ ("p", "w", "r2") ∷ []
unfolding replay new_trigger
schedule_calls = refl

-- Fire while the goroutine of the first timer waits for the lock: that goroutine deletes the entry
-- of the second timer, which Stop does not find any more.
late_call :
    (replay
      (fires "p" "w" "r1"
        ∷ elapses 0
        ∷ fires "p" "w" "r2"
        ∷ calls_back 0
        ∷ runs_func 0
        ∷ stops
        ∷ elapses 1
        ∷ calls_back 1
        ∷ runs_func 1
        ∷ [])
      (new_trigger (pos 5))).calls
    ≡ ("p", "w", "r2") ∷ ("p", "w", "r1") ∷ []
unfolding replay new_trigger
late_call = refl

-- Numbers with their order, in place of floating-point numbers.
ge_trans : (x y z : ℕ) → leb y x ≡ true → leb z y ≡ true → leb z x ≡ true
ge_trans x y z h k = ground arith

gt-ge : (x y z : ℕ) → ltb y x ≡ true → leb z y ≡ true → ltb z x ≡ true
gt-ge x y z h k = ground arith

ge-gt : (x y z : ℕ) → leb y x ≡ true → ltb z y ≡ true → ltb z x ≡ true
ge-gt x y z h k = ground arith

gt_irrefl : (x : ℕ) → ltb x x ≡ false
gt_irrefl x = ground arith

abbrev numbers : FloatOrder ℕ
numbers = record {
  ge = λ x y. leb y x;
  gt = λ x y. ltb y x;
  ge_trans = ge_trans;
  gt-ge = gt-ge;
  ge-gt = ge-gt;
  gt_irrefl = gt_irrefl;
}

abbrev scored : String → ℕ → ℕ → CandidateFitness ℕ
scored name rate efficiency = record {
  candidate = name;
  success_rate = rate;
  efficiency = efficiency;
  run_count = 1;
}

abbrev scores : List (CandidateFitness ℕ)
scores = scored "a" 9 1 ∷ scored "b" 5 5 ∷ scored "c" 4 5 ∷ []

front_of_scores : compute_pareto_front numbers scores ≡ scored "a" 9 1 ∷ scored "b" 5 5 ∷ []
unfolding compute_pareto_front
front_of_scores = refl

compute_pareto_front_lem_example :
    (Any (λ x. x ≡ scored "c" 4 5) (compute_pareto_front numbers scores)
      ↔ Any (λ x. x ≡ scored "c" 4 5) scores
        × (any (λ d. dominates numbers d (scored "c" 4 5)) scores ≡ false))
    × (any (λ d. dominates numbers d (scored "c" 4 5)) scores ≡ true
        → (f : CandidateFitness ℕ) × Any (λ x. x ≡ f) (compute_pareto_front numbers scores)
          × (dominates numbers f (scored "c" 4 5) ≡ true))
compute_pareto_front_lem_example = compute_pareto_front_lem numbers scores (scored "c" 4 5)

abbrev retried : Run
retried = record_start 3 "a" (record_start 2 "b" (record_start 1 "a" (new_run "r" "main")))

retried_once : (evaluate_run retried "v1").retry_count ≡ 1
unfolding evaluate_run record_start new_run
retried_once = refl
