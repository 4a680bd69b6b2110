-- ===== src/Run.antt =====
-- internal/domain/run.go: the record of one workflow run. A `time.Time` is an `Option ℕ`, `none` for
-- the zero time, and `now` is one reading of the clock, which is never the zero time.
pub mod Aggregate
pub mod Steps
pub mod Text
use cloche.Base.{
  ℕ, String, Bool, true, false, ◌&&◌, ◌||◌, Option, none, some, List, [], ◌∷◌, ◌++◌, ◌==◌,
  if◌then◌else◌, any,
}

pub data RunState : Type 0 where
  pending running waiting succeeded failed cancelled parked : RunState

abbrev pub Time : Type 0
Time = Option ℕ

abbrev pub is_zero : Time → Bool
is_zero none = true
is_zero (some t) = false

-- `StepExecution` without the fields that `Run` itself never sets (`Logs`, `GitRef`, `Usage`)
pub record StepExecution : Type 0 where
  pub step_name : String
  pub result : String
  pub skipped : Bool
  pub started_at : Time
  pub completed_at : Time

pub record Run : Type 0 where
  pub id : String
  pub workflow_name : String
  pub state : RunState
  pub active_steps : List String
  pub step_executions : List StepExecution
  pub started_at : Time
  pub completed_at : Time
  pub error_message : String
  pub is_host : Bool

-- `NewRun`
unfoldable pub new_run : String → String → Run
new_run id workflow_name = record {
  id = id;
  workflow_name = workflow_name;
  state = pending;
  active_steps = [];
  step_executions = [];
  started_at = none;
  completed_at = none;
  error_message = "";
  is_host = false;
}

-- `Start`
unfoldable pub start : ℕ → Run → Run
start now r = record r { state = running; started_at = some now }

-- `RecordStepStart`
unfoldable pub record_start : ℕ → String → Run → Run
record_start now name r = record r {
  active_steps = r.active_steps ++ name ∷ [];
  step_executions =
      r.step_executions
      ++ record {
        step_name = name;
        result = "";
        skipped = false;
        started_at = some now;
        completed_at = none;
      }
        ∷ [];
}

-- the first loop of `RecordStepComplete`: one occurrence leaves the active steps
unfoldable pub remove_first : String → List String → List String
remove_first name [] = []
remove_first name (n ∷ ns) = if n == name then ns else n ∷ remove_first name ns

-- an execution of the step that is not complete
unfoldable pub is_open : String → StepExecution → Bool
is_open name e = e.step_name == name && is_zero e.completed_at

-- the second loop, which goes from the end: the last open execution of the step is changed
unfoldable pub mark_last :
    String → (StepExecution → StepExecution) → List StepExecution → List StepExecution
unfolding any is_open
mark_last name f [] = []
mark_last name f (e ∷ es) =
    let rest = mark_last name f es in
    if any (is_open name) es then e ∷ rest else if is_open name e then f e ∷ es else e ∷ es

abbrev pub complete_with : ℕ → String → StepExecution → StepExecution
complete_with now result e = record e { result = result; completed_at = some now }

abbrev pub skip_with : ℕ → String → StepExecution → StepExecution
skip_with now wire e = record e { result = wire; skipped = true; completed_at = some now }

-- `RecordStepComplete`
unfoldable pub record_complete : ℕ → String → String → Run → Run
unfolding remove_first mark_last
record_complete now name result r = record r {
  active_steps = remove_first name r.active_steps;
  step_executions = mark_last name (complete_with now result) r.step_executions;
}

-- `RecordStepSkipped`
unfoldable pub record_skipped : ℕ → String → String → Run → Run
unfolding remove_first mark_last
record_skipped now name wire r = record r {
  active_steps = remove_first name r.active_steps;
  step_executions = mark_last name (skip_with now wire) r.step_executions;
}

-- `Complete`
unfoldable pub complete : ℕ → RunState → Run → Run
complete now state r = record r { state = state; completed_at = some now }

-- `Fail`
unfoldable pub fail : ℕ → String → Run → Run
fail now message r = record r { state = failed; completed_at = some now; error_message = message }

unfoldable pub first_failed : List StepExecution → String
first_failed [] = ""
first_failed (e ∷ es) =
    if e.result == "fail" || e.result == "error" then e.step_name else first_failed es

-- `FindFirstFailedStep`
unfoldable pub find_first_failed_step : Run → String
unfolding first_failed
find_first_failed_step r = first_failed r.step_executions
