-- ===== src/Tests/Resume.antt =====
-- The theorem about resumed runs on concrete data.
use cloche.Base.{String, false, ◌≡◌, ◌↔◌, refl, some, [], ◌∷◌, Dict, lookup, insert}
use cloche.Workflow.{Workflow, Wire, host, next_steps, is_terminal}
use cloche.Run.{Run, StepExecution, new_run}
use cloche.Host.Resume.{build_preloaded_results}
use cloche.Host.Resume.Reached.{last_result, Reached}
use cloche.Host.Resume.Correct.{build_preloaded_results-Reached}

abbrev wire : String → String → String → Wire
wire source result target = record {
  source = source;
  result = result;
  target = target;
  implicit = false;
}

-- plan, then build, then check; a failed check builds again
abbrev main : Workflow
main = record {
  name = "main";
  location = host;
  steps = [];
  agents = [];
  wiring =
      wire "plan" "success" "build"
      ∷ wire "build" "success" "check"
      ∷ wire "check" "fail" "build"
      ∷ wire "check" "success" "done"
      ∷ [];
  collects = [];
  entry_step = "plan";
  config = [];
  repos = [];
}

abbrev execution : String → String → StepExecution
execution name result = record {
  step_name = name;
  result = result;
  skipped = false;
  started_at = some 1;
  completed_at = some 2;
}

abbrev stopped_run : Run
stopped_run = record (new_run "r" "main") {
  step_executions =
      execution "plan" "success"
      ∷ execution "build" "success"
      ∷ execution "check" "fail"
      ∷ execution "build" "error"
      ∷ [];
}

stopped_run_preloads :
    build_preloaded_results stopped_run main "check"
    ≡ some (("plan", "success") ∷ ("build", "success") ∷ [])
unfolding build_preloaded_results new_run lookup insert next_steps is_terminal
stopped_run_preloads = refl

build_preloaded_results-Reached_example :
    (m : Dict String) × (build_preloaded_results stopped_run main "check" ≡ some m)
    × ((name result : String)
        → (lookup name m ≡ some result)
          ↔ (last_result name stopped_run.step_executions ≡ some result)
            × Reached main (λ step. last_result step stopped_run.step_executions) "check" name)
build_preloaded_results-Reached_example = build_preloaded_results-Reached stopped_run main "check"
