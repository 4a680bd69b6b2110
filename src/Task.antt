-- ===== src/Task.antt =====
-- internal/domain/attempt.go and task.go: attempts at a task, and the status that a task takes from the
-- latest one.
use cloche.Base.{
  ℕ, String, Bool, true, false, ◌≡◌, refl, ◌↔◌, Option, none, some, List, [], ◌∷◌, ◌++◌, arith,
}
use cloche.Run.{RunState, succeeded, cancelled, Time}

pub data AttemptResult : Type 0 where
  attempt_running attempt_succeeded attempt_failed attempt_cancelled : AttemptResult

pub record Attempt : Type 0 where
  pub id : String
  pub task_id : String
  pub started_at : Time
  pub ended_at : Time
  pub result : AttemptResult
  pub previous_attempt_id : String

-- `NewAttempt`, with the id that `GenerateAttemptID` drew
unfoldable pub new_attempt : String → String → ℕ → Attempt
new_attempt id task_id now = record {
  id = id;
  task_id = task_id;
  started_at = some now;
  ended_at = none;
  result = attempt_running;
  previous_attempt_id = "";
}

-- `Complete`
unfoldable pub complete : ℕ → AttemptResult → Attempt → Attempt
complete now result a = record a { result = result; ended_at = some now }

-- `IsTerminal`
unfoldable pub is_terminal : Attempt → Bool
is_terminal a = elim a.result [ attempt_running ↦ false | _ ↦ true ]

-- `AttemptResultFromRunState`
unfoldable pub attempt_result_from_run_state : RunState → AttemptResult
attempt_result_from_run_state succeeded = attempt_succeeded
attempt_result_from_run_state cancelled = attempt_cancelled
attempt_result_from_run_state _ = attempt_failed

pub data TaskStatus : Type 0 where
  task_pending task_running task_succeeded task_failed task_cancelled : TaskStatus

-- `TaskStatusFromAttemptResult`; the zero result, which no constructor stands for, is pending
unfoldable pub task_status_from_attempt_result : AttemptResult → TaskStatus
task_status_from_attempt_result attempt_running = task_running
task_status_from_attempt_result attempt_succeeded = task_succeeded
task_status_from_attempt_result attempt_failed = task_failed
task_status_from_attempt_result attempt_cancelled = task_cancelled

-- `LatestAttempt`
unfoldable pub latest_attempt : List Attempt → Option Attempt
latest_attempt [] = none
latest_attempt (a ∷ []) = some a
latest_attempt (a ∷ b ∷ tried) = latest_attempt (b ∷ tried)

status_of_latest : Option Attempt → TaskStatus
status_of_latest none = task_pending
status_of_latest (some a) = task_status_from_attempt_result a.result

-- `DeriveStatus`
unfoldable pub derive_status : List Attempt → TaskStatus
unfolding latest_attempt status_of_latest task_status_from_attempt_result
derive_status attempts = status_of_latest (latest_attempt attempts)

latest_attempt-append :
    (tried : List Attempt) (a : Attempt) → latest_attempt (tried ++ a ∷ []) ≡ some a
unfolding latest_attempt
latest_attempt-append [] a = refl
latest_attempt-append (b ∷ []) a = refl
latest_attempt-append (b ∷ c ∷ tried) a = latest_attempt-append (c ∷ tried) a

-- Whatever was tried before, a task runs from the start of a new attempt; once the attempt has been
-- completed with the result of a run, it is terminal, and the task has succeeded exactly when the run did and
-- is cancelled exactly when the run was.
pub derive_status-complete :
    (tried : List Attempt) (id task_id : String) (start end : ℕ) (state : RunState)
    → let a = complete end (attempt_result_from_run_state state) (new_attempt id task_id start) in
      (derive_status (tried ++ new_attempt id task_id start ∷ []) ≡ task_running)
      × (is_terminal a ≡ true)
      × ((derive_status (tried ++ a ∷ []) ≡ task_succeeded) ↔ (state ≡ succeeded))
      × ((derive_status (tried ++ a ∷ []) ≡ task_cancelled) ↔ (state ≡ cancelled))
      × ((derive_status (tried ++ a ∷ []) ≡ task_running) → ⊥)
unfolding derive_status new_attempt complete is_terminal attempt_result_from_run_state
derive_status-complete tried id task_id start end state =
    let a = complete end (attempt_result_from_run_state state) (new_attempt id task_id start) in
    ground (
      arith,
      latest_attempt-append tried (new_attempt id task_id start),
      latest_attempt-append tried a,
    )
