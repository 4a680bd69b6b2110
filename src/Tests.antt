-- ===== src/Tests.antt =====
-- The theorems on concrete data, and runs of the definitions.
mod Services
mod Loop
mod Docker
mod Prompt
mod Evolution
mod Resume
mod Server
use Prim.Native.Nat.{◌≤◌}
use cloche.Base.{
  ◌⊎◌, ◌==◌, ◌++◌, ℕ, ◌+◌, String, Bool, true, false, ◌≡◌, ◌≢◌, ◌↔◌, refl, none, some, List, [],
  ◌∷◌, length, All, Any, Dict, lookup, insert, has, any, ok, err, arith,
}
use cloche.Base.Int.{pos}
use cloche.Workflow.{next_steps, Step, Workflow, Wire, script, host, container, validate_location}
use cloche.Workflow.Validate.{validate}
use cloche.Workflow.Validate.Spec.{WellFormed}
use cloche.Workflow.Validate.Correct.{validate_iff}
use cloche.Workflow.Validate.Routes.{validate-next_steps, validate-wires}
use cloche.Engine.Wiring.{collect_handled}
use cloche.Run.{
  Run, RunState, pending, running, waiting, succeeded, failed, cancelled, parked, new_run,
}
use cloche.Run.Steps.{
  StepEvent, begin, finish, skip, IsBalanced, Extends, apply_all, apply_all-IsBalanced,
  Extends-apply_all,
}
use cloche.Run.Aggregate.{latest_by_workflow_name, aggregate, attempt_aggregate_status}
use cloche.Run.Aggregate.Worst.{IsWorst, aggregate-IsWorst}
use cloche.Run.Aggregate.Latest.{
  IsSuperseded, Distinct, latest_by_workflow_name_lem, attempt_aggregate_status-IsWorst,
  attempt_aggregate_status_parked,
}
use cloche.Engine.{Engine}
use cloche.Engine.Events.{Event, arrives, Reply, Ended, returned, ran, run}
use cloche.Engine.Returns.{EndsWell}
use cloche.Engine.Terminates.{run-ReturnsWell}
use cloche.Health.{HealthResult, calculate_health, take, Says, calculate_health_lem}
use cloche.Task.{
  complete, attempt_result_from_run_state, new_attempt, derive_status, is_terminal, task_running,
  task_succeeded, task_cancelled, derive_status-complete,
}
use cloche.Dsl.Lexer.{next_token, new_lexer}
use cloche.Dsl.Lexer.Progress.{weight, length-next_token}
use cloche.Dsl.Parser.{
  out_of_fuel, advance, expect, expect_ident, skip_if, list_items, parse_list, parse_value,
}
use cloche.Dsl.Parser.Blocks.{
  parse_step, step_fields, field_body, step_value, prefixed, attempts_or_value, infer_type,
  parse_wire,
}
use cloche.Dsl.Parser.Fixups.{fixups}
use cloche.Dsl.Parser.Handled.{IsHandled, AddsImplicit, fixups-IsHandled, fixups-AddsImplicit}
use cloche.Dsl.Parser.Complete.{
  IsComplete, AreComplete, IsComplete-IsKeyed, parse-IsComplete, parse_all-AreComplete,
}
use cloche.Dsl.Parser.Workflows.{
  parse, parse_all, parse_all_for_host, parse_workflow, items, parse_item, step_item,
  parse_directive, workflows_from, add_workflow,
}
use cloche.Dsl.Parser.Fuel.Workflows.{parse-IsFueled, parse_all-IsFueled}
use cloche.Pipeline.{parse-run-ReturnsWell}

abbrev text : String
text =
    "workflow main { step build { run = \"make\" results = [success, fail] } build:success -> done build:fail -> abort }"

abbrev any_duration : String → Bool
any_duration d = true

abbrev wire : String → String → Bool → Wire
wire result target implicit = record {
  source = "build";
  result = result;
  target = target;
  implicit = implicit;
}

abbrev build : Step
build = record {
  name = "build";
  type = script;
  results = "success" ∷ "fail" ∷ "timeout" ∷ "token-limit" ∷ [];
  config = ("run", "make") ∷ [];
}

abbrev main : Workflow
main = record {
  name = "main";
  location = host;
  steps = ("build", build) ∷ [];
  agents = [];
  wiring =
      wire "success" "done" false
      ∷ wire "fail" "abort" false
      ∷ wire "timeout" "abort" true
      ∷ wire "token-limit" "abort" true
      ∷ [];
  collects = [];
  entry_step = "build";
  config = [];
  repos = [];
}

main_parses : parse any_duration text host ≡ ok main
unfolding parse parse_workflow expect_ident expect advance items parse_item step_item parse_step
    step_fields field_body prefixed step_value attempts_or_value parse_value parse_list list_items
    skip_if infer_type parse_directive parse_wire validate_location fixups next_token new_lexer has
    insert any lookup
main_parses = refl

main_validates : validate main ≡ ok tt
unfolding validate
main_validates = refl

build_found : lookup "build" main.steps ≡ some build
unfolding lookup
build_found = refl

build_declares : any (λ r. r == "success") build.results ≡ true
unfolding any
build_declares = refl

abbrev engine : Engine
engine = record { max_steps = 2; preloaded_results = []; start_step = "" }

abbrev says_success : Reply
says_success = record { result = "success"; usage = none; error = none; skipped = false }

abbrev schedule : List Event
schedule = arrives 5 0 says_success ∷ arrives 6 0 says_success ∷ []

main-IsComplete : IsComplete any_duration main
main-IsComplete = parse-IsComplete any_duration text host main main_parses

-- The one result that arrives ends the run, which has succeeded.
main_succeeds :
    (elim (run engine main "r" 1 false schedule) [
      | ran (err (returned r x calls)) ↦ r.state
      | _ ↦ pending
    ])
    ≡ succeeded
unfolding run validate has insert any lookup cloche.Engine.is_result_declared cloche.Run.complete
main_succeeds = refl

run-ReturnsWell_example :
    (x : Ended) × (run engine main "r" 1 false schedule ≡ ran (err x)) × EndsWell engine x
run-ReturnsWell_example =
    run-ReturnsWell engine main "r" 1 schedule
      (IsComplete-IsKeyed any_duration main main-IsComplete) main_validates refl (omega arith)
      (omega arith)

parse-run-ReturnsWell_example :
    (x : Ended) × (run engine main "r" 1 false schedule ≡ ran (err x)) × EndsWell engine x
parse-run-ReturnsWell_example =
    parse-run-ReturnsWell any_duration text host main engine "r" 1 schedule main_parses
      main_validates refl (omega arith) (omega arith)

validate_iff_example : (validate main ≡ ok tt) ↔ WellFormed main
validate_iff_example = validate_iff main

validate-next_steps_example :
    ((t : String) × (ts : List String) × (next_steps main "build" "success" ≡ ok (t ∷ ts)))
    ⊎ (collect_handled main "build" "success" ≡ true)
validate-next_steps_example =
    validate-next_steps main "build" build "success" main_validates build_found build_declares

parse-IsComplete_example : IsComplete any_duration main
parse-IsComplete_example = parse-IsComplete any_duration text host main main_parses

parse-IsFueled_example : parse any_duration text host ≡ err out_of_fuel → ⊥
parse-IsFueled_example = parse-IsFueled any_duration text host

abbrev main_in_container : Workflow
main_in_container = record main { location = container }

abbrev workflows : Dict Workflow
workflows = ("main", main_in_container) ∷ []

text_parses_whole : parse_all any_duration text ≡ ok workflows
unfolding parse_all workflows_from add_workflow parse_workflow expect_ident expect advance items
    parse_item step_item parse_step step_fields field_body prefixed step_value attempts_or_value
    parse_value parse_list list_items skip_if infer_type parse_directive parse_wire
    validate_location fixups next_token new_lexer has insert any lookup
text_parses_whole = refl

fixups-IsHandled_example :
    IsHandled "timeout" (fixups main).steps (fixups main).wiring
    × IsHandled "token-limit" (fixups main).steps (fixups main).wiring
fixups-IsHandled_example = fixups-IsHandled main

length-next_token_example :
    length ((next_token (new_lexer text)).1).rest + weight (next_token (new_lexer text)).0
    ≤ length (new_lexer text).rest
length-next_token_example = length-next_token (new_lexer text)

-- `build` runs twice at once; one run of it ends, and a step that was never started is skipped.
abbrev events : List StepEvent
events = begin 1 "build" ∷ begin 2 "build" ∷ finish 3 "build" "fail" ∷ skip 4 "test" "success" ∷ []

apply_all-IsBalanced_example : IsBalanced (apply_all events (new_run "r" "main"))
apply_all-IsBalanced_example = apply_all-IsBalanced "r" "main" events

abbrev started_run : Run
started_run = apply_all events (new_run "r" "main")

Extends-apply_all_example :
    Extends started_run.step_executions (apply_all events started_run).step_executions
Extends-apply_all_example = Extends-apply_all events started_run

-- A run of the workflow, with a state and a time of start
abbrev run_of : String → RunState → ℕ → Run
run_of name state time = record (new_run "r" name) { state = state; started_at = some time }

-- The later run of `main` supersedes the failed one.
abbrev group : List Run
group = run_of "main" failed 1 ∷ run_of "main" succeeded 2 ∷ run_of "" cancelled 3 ∷ []

latest_by_workflow_name_lem_example :
    All (λ r. r.workflow_name ≢ "" → IsSuperseded (latest_by_workflow_name group) r) group
    × Distinct (latest_by_workflow_name group)
    × All (λ x. Any (λ r. r ≡ x) group) (latest_by_workflow_name group)
latest_by_workflow_name_lem_example = latest_by_workflow_name_lem group

attempt_aggregate_status-IsWorst_example :
    IsWorst (latest_by_workflow_name group) (attempt_aggregate_status group)
attempt_aggregate_status-IsWorst_example =
    attempt_aggregate_status-IsWorst (run_of "main" failed 1)
      (run_of "main" succeeded 2 ∷ run_of "" cancelled 3 ∷ [])

calculate_health_lem_example :
    (x : HealthResult) × (calculate_health group (pos 2) ≡ some x)
    × Says (take 2 group) x.status
    × (x.total ≡ length (take 2 group))
calculate_health_lem_example =
    calculate_health_lem (run_of "main" failed 1)
      (run_of "main" succeeded 2 ∷ run_of "" cancelled 3 ∷ []) 2
