-- ===== src/Host/Loop.antt =====
-- internal/host/loop.go and the tasks of task.go: what one orchestration loop keeps, and how it picks
-- tasks and records attempts. Readings of the clock are numbers that a Go duration is compared with.
-- A loop's `Start` is called once, so one goroutine runs `runPhased` for it.
pub mod Picks
pub mod Attempts
pub mod Runner
use cloche.Base.{
  ℕ, ◌+◌, ◌-◌, String, Bool, true, false, not, ◌&&◌, ◌||◌, Option, none, some, List, [], ◌∷◌, ◌++◌,
  ◌==◌, if◌then◌else◌, ltb, leb, eqb, Dict, lookup, insert,
}
use cloche.Base.Int.{ℤ, pos, negsuc}
use cloche.Run.{RunState, pending, running, succeeded, Run, Time}

-- An item of the task tracker.
pub record Task : Type 0 where
  pub id : String
  pub status : String
  pub title : String
  pub description : String
  pub metadata : Dict String

-- `IsOpen`
unfoldable pub is_open : Task → Bool
is_open t = t.status == "" || t.status == "open"

pub record LoopConfig : Type 0 where
  pub project_dir : String
  pub max_concurrent : ℤ
  pub stagger_delay : ℤ
  pub dedup_timeout : ℤ
  pub stop_on_error : Bool
  pub max_consecutive_failures : ℤ

-- The limits that a configuration stands for; a duration is in nanoseconds.
pub record Limits : Type 0 where
  pub max_concurrent : ℕ
  pub staggers : Bool
  pub dedup_timeout : ℕ
  pub stop_on_error : Bool
  pub max_consecutive_failures : ℕ

abbrev pub default_max_concurrent : ℕ
default_max_concurrent = 1

abbrev pub default_dedup_timeout : ℕ
default_dedup_timeout = 300000000000

abbrev pub default_max_consecutive_failures : ℕ
default_max_consecutive_failures = 3

-- `if v <= 0 { v = preset }`
unfoldable pub positive_or : ℕ → ℤ → ℕ
positive_or preset (pos n) = if eqb n 0 then preset else n
positive_or preset (negsuc n) = preset

abbrev pub is_positive : ℤ → Bool
is_positive (pos n) = not (eqb n 0)
is_positive (negsuc n) = false

unfoldable pub limits : LoopConfig → Limits
unfolding positive_or
limits c = record {
  max_concurrent = positive_or default_max_concurrent c.max_concurrent;
  staggers = is_positive c.stagger_delay;
  dedup_timeout = positive_or default_dedup_timeout c.dedup_timeout;
  stop_on_error = c.stop_on_error;
  max_consecutive_failures =
      positive_or default_max_consecutive_failures c.max_consecutive_failures;
}

pub record TaskAssignment : Type 0 where
  pub assigned_at : ℕ
  pub run_id : String

pub record Loop : Type 0 where
  pub project_dir : String
  pub config : Limits
  pub running : Bool
  pub consecutive_failures : ℕ
  pub dedup : Dict ℕ
  pub last_tasks : List Task
  pub task_runs : Dict TaskAssignment
  pub has_task_store : Bool
  pub has_activity_log : Bool

-- `NewPhaseLoop`
unfoldable pub new_phase_loop : LoopConfig → Loop
new_phase_loop c = record {
  project_dir = c.project_dir;
  config = limits c;
  running = false;
  consecutive_failures = 0;
  dedup = [];
  last_tasks = [];
  task_runs = [];
  has_task_store = false;
  has_activity_log = false;
}

-- `SetTaskStore`
abbrev pub set_task_store : Loop → Loop
set_task_store l = record l { has_task_store = true }

-- `SetActivityLogger`
abbrev pub set_activity_logger : Loop → Loop
set_activity_logger l = record l { has_activity_log = true }

-- `Start`, the part under the mutex
unfoldable pub start : Loop → Loop
start l = if l.running then l else record l { running = true }

-- `Stop`: the stop channel is closed exactly while a started loop is not `running`
unfoldable pub stop : Loop → Loop
stop l = record l { running = false }

-- `recordConsecutiveFailure`
unfoldable pub record_consecutive_failure : Loop → Loop × Bool
record_consecutive_failure l =
    let n = l.consecutive_failures + 1 in
    (record l { consecutive_failures = n }, leb l.config.max_consecutive_failures n)

-- `resetConsecutiveFailures`
unfoldable pub reset_consecutive_failures : Loop → Loop
reset_consecutive_failures l = record l { consecutive_failures = 0 }

-- The assignments that still suppress a task.
unfoldable pub unexpired : ℕ → ℕ → Dict ℕ → Dict ℕ
unexpired now timeout [] = []
unexpired now timeout ((id, ts) ∷ dedup) =
    let rest = unexpired now timeout dedup in
    if leb timeout (now - ts) then rest else (id, ts) ∷ rest

-- `ts, ok := l.dedup[task.ID]; ok && now.Sub(ts) < l.config.DedupTimeout`
unfoldable pub is_assigned : ℕ → ℕ → Dict ℕ → String → Bool
is_assigned now timeout dedup id = elim (lookup id dedup) [
  | none ↦ false
  | some ts ↦ ltb (now - ts) timeout
]

-- The task that is handed out: the first that may be, in the order of the list.
unfoldable pub pick : ℕ → ℕ → Dict ℕ → List Task → Option Task
pick now timeout dedup [] = none
pick now timeout dedup (t ∷ tasks) =
    let rest = pick now timeout dedup tasks in
    if t.id == ""
    then some t
    else if not (is_open t)
    then rest
    else if is_assigned now timeout dedup t.id
    then rest
    else some t

-- An assignment is written down, but not that of the sentinel task, which has no ID.
unfoldable pub assign : ℕ → Option Task → Dict ℕ → Dict ℕ
assign now none dedup = dedup
assign now (some t) dedup = if t.id == "" then dedup else insert t.id now dedup

-- `pickTaskFromPhase`, with what the list-tasks function returned (`none`: an error)
unfoldable pub pick_task_from_phase : Option (List Task) → ℕ → Loop → Option Task × Loop
pick_task_from_phase none now l = (none, l)
pick_task_from_phase (some tasks) now l =
    let fresh = unexpired now l.config.dedup_timeout l.dedup in
    let picked = pick now l.config.dedup_timeout fresh tasks in
    (picked, record l { last_tasks = tasks; dedup = assign now picked fresh })

pub record TaskStateEntry : Type 0 where
  pub task : Task
  pub assigned : Bool
  pub assigned_at : Time
  pub run_id : String

abbrev pub unassigned : Task → TaskStateEntry
unassigned t = record { task = t; assigned = false; assigned_at = none; run_id = "" }

abbrev pub with_assignment : ℕ → ℕ → Option ℕ → TaskStateEntry → TaskStateEntry
with_assignment now timeout none e = e
with_assignment now timeout (some ts) e =
    if ltb (now - ts) timeout then record e { assigned = true; assigned_at = some ts } else e

abbrev pub with_run : Option TaskAssignment → TaskStateEntry → TaskStateEntry
with_run none e = e
with_run (some a) e = record e {
  run_id = a.run_id;
  assigned_at = if e.assigned then e.assigned_at else some a.assigned_at;
}

-- `GetTaskSnapshot`
unfoldable pub entry : ℕ → Loop → Task → TaskStateEntry
entry now l t =
    with_run (lookup t.id l.task_runs)
      (with_assignment now l.config.dedup_timeout (lookup t.id l.dedup) (unassigned t))

unfoldable pub snapshot : ℕ → Loop → List Task → List TaskStateEntry
snapshot now l [] = []
snapshot now l (t ∷ tasks) = entry now l t ∷ snapshot now l tasks

unfoldable pub get_task_snapshot : ℕ → Loop → List TaskStateEntry
get_task_snapshot now l = snapshot now l l.last_tasks

abbrev pub is_active : RunState → Bool
is_active pending = true
is_active running = true
is_active _ = false

-- `countActiveHostRuns`, with what the store listed (`none`: an error)
unfoldable pub count_host_runs : List Run → ℕ
count_host_runs [] = 0
count_host_runs (r ∷ runs) =
    (if r.is_host && is_active r.state then 1 else 0) + count_host_runs runs

unfoldable pub count_active_host_runs : Option (List Run) → ℕ
count_active_host_runs none = 0
count_active_host_runs (some runs) = count_host_runs runs
