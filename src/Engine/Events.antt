-- ===== src/Engine/Events.antt =====
-- The event loop of `Run`. The schedule is a list of events: the cancellation of the context, or the
-- arrival of one goroutine's result. Each event has one reading of the clock.
use cloche.Base.{
  ℕ, zero, suc, ◌+◌, ◌-◌, ◌%◌, String, Bool, true, false, not, ◌&&◌, ◌||◌, Option, none, some, List,
  [], ◌∷◌, ◌==◌, if◌then◌else◌, ltb, eqb, lookup, insert, length, Result, ok, err,
}
use cloche.Base.Int.{ℤ, pos, negsuc, ltz, eqz, add64}
use cloche.Workflow.{Step, WireCondition, Collect, Workflow}
use cloche.Workflow.Validate.{validate, Checked, Invalid}
use cloche.Run.{
  RunState, succeeded, failed, cancelled, Run, new_run, start, record_complete, record_skipped,
  complete,
}
use cloche.Engine.{
  Engine, Loop, Flight, replies, executes, StepTrigger, no_trigger, StepResult, TokenUsage,
  ExecError, is_context_error, CollectState, Launch, Call, step_complete, step_skipped,
  run_complete, RunError, workflow_cancelled, no_branch_done, undeclared_wire, undeclared_result,
  execution_failed, default_step_token_limit, default_workflow_token_limit, step_token_limit,
  workflow_token_limit, is_result_declared, count_of, launch_step,
}
use cloche.Engine.Wiring.{route}

-- What the executor returns for a step; `arrives` picks a goroutine in flight by its position, taken
-- modulo their number, and a synthesised result ignores the reply.
pub record Reply : Type 0 where
  pub result : String
  pub usage : Option TokenUsage
  pub error : Option ExecError
  pub skipped : Bool

pub data Event : Type 0 where
  context_done : Event
  arrives : ℕ → ℕ → Reply → Event

-- `Run` returned a run, its error and the calls of the status handler; or it dereferenced nil.
pub data Ended : Type 0 where
  returned : Run → Option RunError → List Call → Ended
  panicked : Ended

abbrev pub Turn : Type 0
Turn = Result Ended Loop

-- `run.Complete(state); e.status.OnRunComplete(run); return run, err`
unfoldable pub end_run : ℕ → RunState → Option RunError → Loop → Ended
end_run now state error s = returned (complete now state s.run) error (run_complete state ∷ s.calls)

unfoldable pub or_fail : ℕ → Launch → Turn
unfolding end_run
or_fail now (ok s) = ok s
or_fail now (err (x, s)) = err (end_run now failed (some x) s)

unfoldable pub trigger_of : StepResult → StepTrigger
trigger_of sr = record { prev_step = sr.step_name; prev_result = sr.result }

unfoldable pub route_or_fail : Engine → Workflow → ℕ → StepResult → Loop → Turn
unfolding trigger_of or_fail route
route_or_fail e w now sr s = or_fail now (route e w now (trigger_of sr) s)

exceeds : ℤ → Option TokenUsage → Bool
exceeds limit none = false
exceeds limit (some u) = not (eqz limit (negsuc 0)) && ltz limit u.output_tokens

-- the override of a result by "token-limit"
unfoldable pub limited_result : Step → StepResult → String
unfolding exceeds step_token_limit
limited_result step sr =
    if exceeds (step_token_limit step default_step_token_limit) sr.usage
    then "token-limit"
    else sr.result

-- the tokens of the workflow, and whether they abort it
unfoldable pub add_usage : Workflow → Option TokenUsage → Loop → Loop
unfolding workflow_token_limit
add_usage w none s = s
add_usage w (some u) s =
    let total = add64 s.output_tokens u.output_tokens in
    let limit = workflow_token_limit w default_workflow_token_limit in
    record s {
      output_tokens = total;
      aborted = s.aborted || (not (eqz limit (negsuc 0)) && not (ltz total limit));
    }

-- a result of the normal path, from `isResultDeclared` on
unfoldable pub settle : Engine → Workflow → ℕ → Step → StepResult → Loop → Turn
unfolding limited_result add_usage route_or_fail end_run
settle e w now step sr s =
    let result = limited_result step sr in
    if is_result_declared step sr.result
    then route_or_fail e w now (record sr { result = result })
        (add_usage w sr.usage (record s {
          run = record_complete now sr.step_name result s.run;
          calls = step_complete sr.step_name result ∷ s.calls;
        }))
    else err (
        end_run now failed (some (undeclared_result sr.step_name sr.result))
          (record s { run = record_complete now sr.step_name sr.result s.run }))

unfoldable pub plain_fail : StepResult → StepResult
plain_fail sr = record {
  step_name = sr.step_name;
  result = "fail";
  usage = none;
  error = none;
  skipped = false;
}

-- a result of the normal path
unfoldable pub executed : Engine → Workflow → ℕ → Step → StepResult → Option ExecError → Loop → Turn
unfolding plain_fail end_run
executed e w now step sr none s = settle e w now step sr s
executed e w now step sr (some x) s =
    if s.cancelled && is_context_error x
    then (if is_result_declared step "fail"
        then settle e w now step (plain_fail sr) s
        else ok (record s { run = record_complete now sr.step_name "error" s.run }))
    else err (
        end_run now failed (some (execution_failed sr.step_name x))
          (record s { run = record_complete now sr.step_name "error" s.run }))

-- the path of a step whose skip script bypassed it
unfoldable pub skipped_over : Engine → Workflow → ℕ → Step → StepResult → Loop → Turn
unfolding route_or_fail end_run
skipped_over e w now step sr s =
    if is_result_declared step sr.result
    then route_or_fail e w now sr (record s {
      run = record_skipped now sr.step_name sr.result s.run;
      calls = step_skipped sr.step_name sr.result ∷ s.calls;
    })
    else err (
        end_run now failed (some (undeclared_wire sr.step_name sr.result))
          (record s { run = record_complete now sr.step_name sr.result s.run }))

abbrev pub count_launch : String → Loop → Loop
count_launch name s = record s {
  launch_counts = insert name (count_of (lookup name s.launch_counts) + 1) s.launch_counts;
}

-- a result of the normal path for a step that the map does not have: nil is dereferenced where its
-- declared results are asked for
unfoldable pub executed_missing : ℕ → StepResult → Option ExecError → Loop → Turn
unfolding end_run
executed_missing now sr none s = err panicked
executed_missing now sr (some x) s =
    if s.cancelled && is_context_error x
    then err panicked
    else err (
        end_run now failed (some (execution_failed sr.step_name x))
          (record s { run = record_complete now sr.step_name "error" s.run }))

unfoldable pub handle_found : Engine → Workflow → ℕ → StepResult → Loop → Option Step → Turn
unfolding executed skipped_over executed_missing
handle_found e w now sr s none =
    if sr.skipped
    then err panicked
    else executed_missing now sr sr.error (count_launch sr.step_name s)
handle_found e w now sr s (some step) =
    if sr.skipped
    then skipped_over e w now step sr s
    else executed e w now step sr sr.error (count_launch sr.step_name s)

-- `case sr := <-results`, with the goroutine taken out of `in_flight` already
unfoldable pub handle_result : Engine → Workflow → ℕ → StepResult → Loop → Turn
unfolding handle_found
handle_result e w now sr s = handle_found e w now sr s (lookup sr.step_name w.steps)

-- what a goroutine sends
unfoldable pub result_of : Flight → Reply → StepResult
result_of (replies name result) reply = record {
  step_name = name;
  result = result;
  usage = none;
  error = none;
  skipped = false;
}
result_of (executes step trigger) reply = record {
  step_name = step.name;
  result = reply.result;
  usage = reply.usage;
  error = reply.error;
  skipped = reply.skipped;
}

unfoldable pub take_flight : ℕ → List Flight → Option (Flight × List Flight)
take_flight i [] = none
take_flight zero (f ∷ fs) = some (f, fs)
take_flight (suc i) (f ∷ fs) = elim (take_flight i fs) [
  | none ↦ none
  | some (g, gs) ↦ some (g, f ∷ gs)
]

unfoldable pub land : Engine → Workflow → ℕ → Reply → Loop → Option (Flight × List Flight) → Turn
unfolding handle_result result_of
land e w now reply s none = ok s
land e w now reply s (some (flight, rest)) =
    handle_result e w now (result_of flight reply)
      (record s { in_flight = rest; active_count = s.active_count - 1 })

-- one turn of the `select`; the context is replaced when it is done, and is not done again
unfoldable pub turn : Engine → Workflow → Event → Loop → Turn
unfolding land take_flight
turn e w context_done s = ok (record s { cancelled = true })
turn e w (arrives now i reply) s =
    land e w now reply s (take_flight (i % length s.in_flight) s.in_flight)

-- the state behind the loop
unfoldable pub conclude : ℕ → Loop → Ended
unfolding end_run
conclude now s =
    if s.cancelled
    then end_run now cancelled (some workflow_cancelled) s
    else if s.aborted
    then end_run now failed none s
    else if ltb 0 s.done_count
    then end_run now succeeded none s
    else end_run now failed (some no_branch_done) s

-- The loop over a schedule: it returns when nothing is active, and is left running where the schedule
-- ends before.
unfoldable pub loop : Engine → Workflow → ℕ → List Event → Loop → Turn
unfolding turn conclude
loop e w now [] s = if eqb s.active_count 0 then err (conclude now s) else ok s
loop e w now (v ∷ vs) s =
    if eqb s.active_count 0
    then err (conclude now s)
    else (elim (turn e w v s) [ ok s' ↦ loop e w now vs s' | err x ↦ err x ])

start_collects : List Collect → List CollectState
start_collects [] = []
start_collects (c ∷ cs) =
    record { collect = c; satisfied = unmarked c.conditions; fired = false } ∷ start_collects cs
  where
    unmarked : List WireCondition → List Bool
    unmarked [] = []
    unmarked (x ∷ xs) = false ∷ unmarked xs

unfoldable pub initial : ℕ → String → Workflow → Loop
unfolding start_collects
initial now id w = record {
  run = start now (new_run id w.name);
  in_flight = [];
  active_count = 0;
  step_count = 0;
  done_count = 0;
  aborted = false;
  cancelled = false;
  launch_counts = [];
  output_tokens = pos 0;
  collects = start_collects w.collects;
  calls = [];
}

-- `run.Complete(state); return run, err`, with no call of the status handler
end_quietly : ℕ → RunState → RunError → Loop → Ended
end_quietly now state x s = returned (complete now state s.run) (some x) s.calls

unfoldable pub or_end : Engine → Workflow → ℕ → List Event → Launch → Turn
unfolding loop end_quietly
or_end e w now events (ok s) = loop e w now events s
or_end e w now events (err (x, s)) = err (end_quietly now failed x s)

unfoldable pub entry_of : Engine → Workflow → String
entry_of e w = if e.start_step == "" then w.entry_step else e.start_step

-- `Run` on a valid workflow; `done_before` says that the context is done at the start
unfoldable pub run_valid : Engine → Workflow → String → ℕ → Bool → List Event → Turn
unfolding or_end end_quietly end_run entry_of initial launch_step
run_valid e w id now done_before events =
    let s = initial now id w in
    if done_before
    then err (end_quietly now cancelled workflow_cancelled s)
    else if eqz (workflow_token_limit w default_workflow_token_limit) (pos 0)
    then err (end_run now failed none s)
    else or_end e w now events (launch_step e w now (entry_of e w) no_trigger s)

-- The outcome of `Run`: no run for an invalid workflow, else what `run_valid` gives.
pub data Outcome : Type 0 where
  invalid : Invalid → Outcome
  ran : Turn → Outcome

unfoldable pub validated : Engine → Workflow → String → ℕ → Bool → List Event → Checked → Outcome
unfolding run_valid
validated e w id now done_before events (err x) = invalid x
validated e w id now done_before events (ok u) = ran (run_valid e w id now done_before events)

-- `Engine.Run`
unfoldable pub run : Engine → Workflow → String → ℕ → Bool → List Event → Outcome
unfolding validated settle
run e w id now done_before events = validated e w id now done_before events (validate w)
