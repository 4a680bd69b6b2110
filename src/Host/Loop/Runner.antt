-- ===== src/Host/Loop/Runner.antt =====
-- internal/host/loop.go: `runPhased` and the goroutines that it launches, as a state machine. An event is
-- one stretch of the code between two points where it waits, or where another goroutine can see it.
pub mod Bounded
pub mod Counted
pub mod Halts
pub mod Unfinished
pub mod Stops
mod Guards
mod Held
use cloche.Base.{
  ℕ, zero, suc, ◌+◌, ◌-◌, String, Bool, true, false, not, ◌&&◌, Option, none, some, List, [], ◌∷◌,
  ◌++◌, ◌==◌, if◌then◌else◌, ltb, leb, eqb, Dict, lookup, insert, length, take_at,
}
use cloche.Run.{RunState, succeeded, failed, Run}
use cloche.Host.Loop.{
  Loop, Task, LoopConfig, TaskAssignment, start, stop, new_phase_loop, pick_task_from_phase,
  count_active_host_runs, record_consecutive_failure, reset_consecutive_failures, set_task_store,
  set_activity_logger,
}
use cloche.Host.Loop.Attempts.{Store, Saves, create_attempt_for_task, complete_attempt, title_run}

-- A goroutine that runs the main workflow.
pub record Worker : Type 0 where
  pub task_id : String
  pub task_title : String
  pub attempt_id : String

-- What a worker sends on `completions`.
pub record Completion : Type 0 where
  pub task_id : String
  pub state : RunState

-- `RunResult`, with the fields that the loop reads
pub record RunResult : Type 0 where
  pub run_id : String
  pub state : RunState

-- The main function panics, or returns a result or nil.
pub data Outcome : Type 0 where
  panics : Outcome
  returns : Option RunResult → Outcome

-- Where `runPhased` stands: before the stop check of the inner loop, before list-tasks, in one of its
-- three sleeps, in the last `select`, or behind its end.
pub data Stage : Type 0 where
  looking picking staggering idling backing_off waiting ended : Stage

pub record Runner : Type 0 where
  pub loop : Loop
  pub store : Store
  pub stage : Stage
  pub in_flight : ℕ
  pub launched : ℕ
  pub workers : List Worker
  pub completions : List Completion
  pub polls_driven : ℕ

-- `driveHumanPolls`; what it does to the coordinator is another component
abbrev pub drive_human_polls : Runner → Runner
drive_human_polls r = record r { polls_driven = r.polls_driven + 1 }

-- behind the inner loop
abbrev pub settle : Runner → Runner
settle r = record r { stage = if eqb r.in_flight 0 then idling else waiting }

-- the head of the inner loop
unfoldable pub refill : Runner → Runner
refill r =
    if ltb r.in_flight r.loop.config.max_concurrent then record r { stage = looking } else settle r

-- the head of the outer loop
unfoldable pub tick : Runner → Runner
unfolding refill
tick r = refill (drive_human_polls (record r { launched = 0 }))

-- the stop check, the count of the active runs, and whether the launch is staggered
unfoldable pub look : Option (List Run) → Runner → Runner
look runs r =
    if not r.loop.running
    then record r { stage = ended }
    else if leb r.loop.config.max_concurrent (count_active_host_runs runs)
    then settle r
    else record r {
      stage = if ltb 0 r.launched && r.loop.config.staggers then staggering else picking;
    }

-- a task has been picked, or none
unfoldable pub launch : Option Task → String → ℕ → Saves → Runner → Runner
unfolding refill
launch none attempt_id now saves r = settle r
launch (some t) attempt_id now saves r = refill (record r {
  store = create_attempt_for_task r.loop attempt_id t.id t.title now saves r.store;
  in_flight = r.in_flight + 1;
  launched = r.launched + 1;
  workers =
      r.workers ++ record { task_id = t.id; task_title = t.title; attempt_id = attempt_id } ∷ [];
})

unfoldable pub pick_and_launch : Option (List Task) → String → ℕ → Saves → Runner → Runner
unfolding launch
pick_and_launch tasks attempt_id now saves r =
    let (picked, loop) = pick_task_from_phase tasks now r.loop in
    launch picked attempt_id now saves (record r { loop = loop })

-- a sleep ends, or the timer of the last `select` fires
unfoldable pub wake : Stage → Runner → Option Runner
unfolding tick
wake staggering r = some (record r { stage = picking })
wake idling r = some (tick (drive_human_polls r))
wake backing_off r = some (tick (drive_human_polls r))
wake waiting r = some (tick (drive_human_polls r))
wake _ r = none

-- the same places, when the stop channel is closed
unfoldable pub notice_stop : Stage → Runner → Option Runner
notice_stop looking r = none
notice_stop picking r = none
notice_stop ended r = none
notice_stop _ r = if r.loop.running then none else some (record r { stage = ended })

-- the run has succeeded, or has failed or been aborted
unfoldable pub judge : RunState → Runner → Runner
unfolding tick
judge succeeded r = tick (record r { loop = reset_consecutive_failures r.loop })
judge _ r =
    if r.loop.config.stop_on_error
    then record r { loop = stop r.loop; stage = ended }
    else let (counted, reached) = record_consecutive_failure r.loop in
      if reached
      then record r { loop = stop counted; stage = ended }
      else record r { loop = counted; stage = backing_off }

unfoldable pub receive : Stage → List Completion → Runner → Option Runner
unfolding judge
receive waiting (c ∷ cs) r =
    some (judge c.state (record r { in_flight = r.in_flight - 1; completions = cs }))
receive _ _ r = none

unfoldable pub final_state : Outcome → RunState
final_state (returns (some result)) = result.state
final_state _ = failed

unfoldable pub track : Outcome → String → ℕ → Loop → Loop
track (returns (some result)) task_id now l = if result.run_id == "" then l else record l {
  task_runs = insert task_id (record { assigned_at = now; run_id = result.run_id }) l.task_runs;
}
track _ task_id now l = l

unfoldable pub track_title : Outcome → String → Saves → Store → Store
track_title (returns (some result)) title saves s =
    if result.run_id == "" then s else title_run result.run_id title saves.run_saved s
track_title _ title saves s = s

-- a worker ends: it tracks its run, completes its attempt and sends; a full channel blocks it
unfoldable pub finish : ℕ → Outcome → ℕ → Saves → Runner → Option Runner
unfolding track track_title final_state
finish k outcome now saves r = elim (take_at k r.workers) [
  | none ↦ none
  | some (w, others) ↦
      if ltb (length r.completions) r.loop.config.max_concurrent
      then some (record r {
        loop = track outcome w.task_id now r.loop;
        store =
            complete_attempt r.loop w.attempt_id (final_state outcome) now saves.attempt_read
              saves.attempt_saved (track_title outcome w.task_title saves r.store);
        workers = others;
        completions =
            r.completions ++ record { task_id = w.task_id; state = final_state outcome } ∷ [];
      })
      else none
]

pub data Event : Type 0 where
  looks : Option (List Run) → Event
  picks : Option (List Task) → String → ℕ → Saves → Event
  wakes : Event
  notices_stop : Event
  receives : Event
  finishes : ℕ → Outcome → ℕ → Saves → Event
  stops : Event

-- The stage that an event needs.
unfoldable pub at_look : Stage → Runner → Option Runner
at_look looking r = some r
at_look _ r = none

unfoldable pub at_pick : Stage → Runner → Option Runner
at_pick picking r = some r
at_pick _ r = none

-- `none`: the event cannot happen now.
unfoldable pub step : Event → Runner → Option Runner
step (looks runs) r = at_look r.stage (look runs r)
step (picks tasks attempt_id now saves) r =
    at_pick r.stage (pick_and_launch tasks attempt_id now saves r)
step wakes r = wake r.stage r
step notices_stop r = notice_stop r.stage r
step receives r = receive r.stage r.completions r
step (finishes k outcome now saves) r = finish k outcome now saves r
step stops r = some (record r { loop = stop r.loop })

unfoldable pub replay : List Event → Runner → Option Runner
replay [] r = some r
replay (e ∷ es) r = elim (step e r) [ none ↦ none | some r' ↦ replay es r' ]

-- `Start` launches the goroutine.
abbrev pub not_begun : LoopConfig → Store → Runner
not_begun c store = record {
  loop = start (set_activity_logger (set_task_store (new_phase_loop c)));
  store = store;
  stage = looking;
  in_flight = 0;
  launched = 0;
  workers = [];
  completions = [];
  polls_driven = 0;
}

unfoldable pub begin : LoopConfig → Store → Runner
unfolding tick
begin c store = tick (not_begun c store)
