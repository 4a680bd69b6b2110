-- ===== src/Evolution/Fitness/Retries.antt =====
-- EvaluateRun: a retry is an execution of a step that was executed before.
use cloche.Base.{
  ℕ, ◌+◌, String, ◌≡◌, refl, Bool, false, List, [], ◌∷◌, ◌==◌, if◌then◌else◌, ltb, ◌||◌, length,
  Dict, lookup, insert, lookup-insert, arith,
}
use cloche.Run.{Run, StepExecution}
use cloche.Evolution.Fitness.{times, count_retries, evaluate_run}

-- The executions of steps that do not stand among those before.
abbrev pub first_executions : (String → Bool) → List StepExecution → ℕ
first_executions known [] = 0
first_executions known (e ∷ es) =
    (if known e.step_name then 0 else 1)
    + first_executions (λ name. known name || e.step_name == name) es

-- What is known of a step is whether `seen` counts an execution of it.
Counts : Dict ℕ → (String → Bool) → Type 0
Counts seen known = (name : String) → ltb 0 (times (lookup name seen)) ≡ known name

Counts-insert :
    (seen : Dict ℕ) (known : String → Bool) (step : String) (n : ℕ)
    → Counts seen known
    → Counts (insert step (n + 1) seen) (λ name. known name || step == name)
unfolding Counts
Counts-insert seen known step n h name =
    ground (arith, lookup-insert step name (n + 1) seen, h name)

count_retries_lem :
    (seen : Dict ℕ) (known : String → Bool) (r : ℕ) (es : List StepExecution)
    → Counts seen known
    → count_retries seen r es + first_executions known es ≡ r + length es
unfolding count_retries Counts
count_retries_lem seen known r [] h = omega arith
count_retries_lem seen known r (e ∷ es) h =
    let n = times (lookup e.step_name seen) in
    let further = λ (r' : ℕ).
      count_retries_lem (insert e.step_name (n + 1) seen)
        (λ name. known name || e.step_name == name) r' es
        (Counts-insert seen known e.step_name n h) in
    ground (arith, further r, further (r + 1), h e.step_name)

-- The retries of a run and the executions of a step that was not executed before are together all
-- the executions of the run.
pub evaluate_run-retry_count :
    (r : Run) (candidate : String)
    → (evaluate_run r candidate).retry_count + first_executions (λ name. false) r.step_executions
      ≡ length r.step_executions
unfolding evaluate_run Counts lookup
evaluate_run-retry_count r candidate =
    omega (arith, count_retries_lem [] (λ name. false) 0 r.step_executions (λ name. refl))
