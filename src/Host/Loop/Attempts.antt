-- ===== src/Host/Loop/Attempts.antt =====
-- internal/host/loop.go: the records of tasks and attempts that the loop writes.
use cloche.Base.{
  ℕ, String, Bool, not, ◌&&◌, ◌||◌, none, some, List, [], ◌∷◌, ◌++◌, ◌==◌, if◌then◌else◌, Dict,
  lookup, insert,
}
use cloche.Run.{RunState}
use cloche.Task.{AttemptResult, Attempt, new_attempt, complete, attempt_result_from_run_state}
use cloche.Host.Loop.{Loop}

-- internal/domain/task.go: what the loop sets of a `Task`; the source is external
pub record TaskRecord : Type 0 where
  pub id : String
  pub title : String
  pub project_dir : String
  pub created_at : ℕ

-- internal/activitylog: the two kinds of entries that the loop appends
pub data Entry : Type 0 where
  attempt_started : String → String → Entry
  attempt_ended : String → String → AttemptResult → Entry

-- What the task store, the run store and the activity log hold; of the runs, the task titles. A read fails where nothing is stored.
pub record Store : Type 0 where
  pub tasks : Dict TaskRecord
  pub attempts : Dict Attempt
  pub activity : List Entry
  pub titles : Dict String

-- Whether the writes of a call succeed, and the read of the attempt that is completed.
pub record Saves : Type 0 where
  pub task_saved : Bool
  pub attempt_read : Bool
  pub attempt_saved : Bool
  pub run_saved : Bool

abbrev pub append_entry : Loop → Entry → Store → Store
append_entry l e s = if l.has_activity_log then record s { activity = s.activity ++ e ∷ [] } else s

abbrev pub save_attempt : Attempt → Store → Store
save_attempt a s = record s { attempts = insert a.id a s.attempts }

unfoldable pub ensure_task : Loop → String → String → ℕ → Saves → Store → Store
ensure_task l task_id title now saves s = elim (lookup task_id s.tasks) [
  | some t ↦ s
  | none ↦
      if l.has_task_store
      then if saves.task_saved
        then record s {
          tasks =
              insert task_id
                (record {
                  id = task_id;
                  title = title;
                  project_dir = l.project_dir;
                  created_at = now;
                })
                s.tasks;
        }
        else s
      else s
]

-- `createAttemptForTask`, with the ID that `NewAttempt` drew, which it returns
unfoldable pub create_attempt_for_task : Loop → String → String → String → ℕ → Saves → Store → Store
unfolding ensure_task
create_attempt_for_task l attempt_id task_id title now saves s =
    if task_id == ""
    then s
    else let known = ensure_task l task_id title now saves s in
      if saves.attempt_saved
      then append_entry l (attempt_started task_id attempt_id)
          (save_attempt (new_attempt attempt_id task_id now) known)
      else known

-- `completeAttempt`
unfoldable pub complete_attempt : Loop → String → RunState → ℕ → Bool → Bool → Store → Store
complete_attempt l attempt_id state now read saved s =
    if attempt_id == "" || not read then s else elim (lookup attempt_id s.attempts) [
      | none ↦ s
      | some a ↦
          let result = attempt_result_from_run_state state in
          let written = if saved then save_attempt (complete now result a) s else s in
          append_entry l (attempt_ended a.task_id attempt_id result) written
    ]

-- The title of the task is copied to its run, if that is stored and has none.
unfoldable pub title_run : String → String → Bool → Store → Store
title_run run_id title saved s = if title == "" then s else elim (lookup run_id s.titles) [
  | none ↦ s
  | some old ↦ if old == "" && saved then record s { titles = insert run_id title s.titles } else s
]
