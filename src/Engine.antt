-- ===== src/Engine.antt =====
-- internal/engine/engine.go: the state of one run of a workflow and the launch of a step. The
-- executor is not part of the model: a goroutine that executes a step stands in `in_flight` until an
-- event of the schedule says what the executor returned.
pub mod Events
pub mod Invariant
pub mod Returns
pub mod Concludes
pub mod Terminates
pub mod Wiring
use cloche.Base.{
  ℕ, zero, suc, ◌+◌, String, Bool, true, false, not, ◌&&◌, ◌||◌, Option, none, some, List, [], ◌∷◌,
  ◌++◌, map, ◌==◌, if◌then◌else◌, ltb, leb, eqb, Dict, lookup, insert, any, Result, ok, err,
}
use cloche.Base.Int.{ℤ, pos, negsuc, ltz, eqz, parse_int}
use cloche.Workflow.{Step, Wire, WireCondition, Collect, Workflow}
use cloche.Run.{RunState, Run, record_start}

pub record TokenUsage : Type 0 where
  pub input_tokens : ℤ
  pub output_tokens : ℤ
  pub agent_name : String

-- An executor's error, as far as `errors.Is` looks into it.
pub data ExecError : Type 0 where
  canceled deadline_exceeded other_error : ExecError
  wrapped : ExecError → ExecError

-- `isContextError`
unfoldable pub is_context_error : ExecError → Bool
is_context_error canceled = true
is_context_error deadline_exceeded = true
is_context_error other_error = false
is_context_error (wrapped e) = is_context_error e

pub record StepTrigger : Type 0 where
  pub prev_step : String
  pub prev_result : String

abbrev pub no_trigger : StepTrigger
no_trigger = record { prev_step = ""; prev_result = "" }

pub record StepResult : Type 0 where
  pub step_name : String
  pub result : String
  pub usage : Option TokenUsage
  pub error : Option ExecError
  pub skipped : Bool

-- A goroutine that will send one result: a synthesised one, or what the executor returns.
pub data Flight : Type 0 where
  replies : String → String → Flight
  executes : Step → StepTrigger → Flight

-- `satisfied` has a flag for each condition: whether its index is in the Go map.
pub record CollectState : Type 0 where
  pub collect : Collect
  pub satisfied : List Bool
  pub fired : Bool

-- The calls of the `StatusHandler`, newest first.
pub data Call : Type 0 where
  step_start : String → Call
  step_complete : String → String → Call
  step_skipped : String → String → Call
  run_complete : RunState → Call

pub record Engine : Type 0 where
  pub max_steps : ℕ
  pub preloaded_results : Dict String
  pub start_step : String

-- The variables of `Run`.
pub record Loop : Type 0 where
  pub run : Run
  pub in_flight : List Flight
  pub active_count : ℕ
  pub step_count : ℕ
  pub done_count : ℕ
  pub aborted : Bool
  pub cancelled : Bool
  pub launch_counts : Dict ℕ
  pub output_tokens : ℤ
  pub collects : List CollectState
  pub calls : List Call

pub data RunError : Type 0 where
  workflow_cancelled no_branch_done : RunError
  too_many_steps : ℕ → RunError
  step_not_found : String → RunError
  undeclared_wire : String → String → RunError
  undeclared_result : String → String → RunError
  execution_failed : String → ExecError → RunError
  no_wiring : String → String → RunError

-- An error of a launch, with the state that it left.
abbrev pub Launch : Type 0
Launch = Result (RunError × Loop) Loop

abbrev pub default_step_token_limit : ℤ
default_step_token_limit = pos 500_000

abbrev pub default_workflow_token_limit : ℤ
default_workflow_token_limit = pos 2_000_000

parsed_or : ℤ → Option ℤ → ℤ
parsed_or d none = d
parsed_or d (some n) = n

limit_or : ℤ → Option String → ℤ
unfolding parsed_or
limit_or d none = d
limit_or d (some raw) = parsed_or d (parse_int raw)

-- `stepTokenLimit`
unfoldable pub step_token_limit : Step → ℤ → ℤ
unfolding limit_or
step_token_limit step default_limit = limit_or default_limit (lookup "token-limit" step.config)

-- `workflowTokenLimit`
unfoldable pub workflow_token_limit : Workflow → ℤ → ℤ
unfolding limit_or
workflow_token_limit w default_limit = limit_or default_limit (lookup "token-limit" w.config)

-- `isResultDeclared`
unfoldable pub is_result_declared : Step → String → Bool
unfolding any
is_result_declared step result = any (λ r. r == result) step.results

-- a missing key of `map[string]int` reads as 0
abbrev pub count_of : Option ℕ → ℕ
count_of none = 0
count_of (some n) = n

reaches : ℕ → Option ℤ → Bool
reaches n none = false
reaches n (some m) = ltz (pos 0) m && not (ltz (pos n) m)

reaches_raw : ℕ → Option String → Bool
unfolding reaches
reaches_raw n none = false
reaches_raw n (some raw) = reaches n (parse_int raw)

-- the test of `max_attempts`: a positive number, and as many executions already
unfoldable pub attempts_exhausted : Step → ℕ → Bool
unfolding reaches_raw
attempts_exhausted step n = reaches_raw n (lookup "max_attempts" step.config)

preloaded_or_executes : Step → StepTrigger → Option String → Flight
preloaded_or_executes step trigger none = executes step trigger
preloaded_or_executes step trigger (some result) = replies step.name result

-- which goroutine `launchStep` starts for a step
unfoldable pub choose_flight : Engine → Loop → String → Step → StepTrigger → Flight
unfolding attempts_exhausted step_token_limit preloaded_or_executes
choose_flight e s name step trigger =
    if attempts_exhausted step (count_of (lookup name s.launch_counts))
    then replies step.name "give-up"
    else if eqz (step_token_limit step default_step_token_limit) (pos 0)
    then replies step.name "token-limit"
    else preloaded_or_executes step trigger (lookup name e.preloaded_results)

unfoldable pub launch_found : Engine → ℕ → String → StepTrigger → Loop → Option Step → Launch
unfolding choose_flight
launch_found e now name trigger s none = err (step_not_found name, s)
launch_found e now name trigger s (some step) = ok (record s {
  active_count = s.active_count + 1;
  step_count = s.step_count + 1;
  run = record_start now step.name s.run;
  calls = step_start step.name ∷ s.calls;
  in_flight = s.in_flight ++ choose_flight e s name step trigger ∷ [];
})

-- `launchStep`; the count of steps is not read any more behind an error
unfoldable pub launch_step : Engine → Workflow → ℕ → String → StepTrigger → Loop → Launch
unfolding launch_found
launch_step e w now name trigger s =
    if ltb e.max_steps (s.step_count + 1)
    then err (too_many_steps e.max_steps, s)
    else launch_found e now name trigger s (lookup name w.steps)
