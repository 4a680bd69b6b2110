-- ===== src/Tests/Loop.antt =====
-- The theorems about the host's loop on concrete data.
use Prim.Native.Nat.{◌≤◌}
use cloche.Base.{
  ◌+◌, ◌-◌, true, false, ◌≡◌, ◌↔◌, refl, some, List, [], ◌∷◌, ◌++◌, Any, length, lookup, insert,
  arith, take_at,
}
use cloche.Base.Int.{pos, negsuc}
use cloche.Task.{attempt_failed, new_attempt, complete, attempt_result_from_run_state}
use cloche.Host.Loop
use cloche.Host.Loop.{Task, LoopConfig, Loop, limits, new_phase_loop, pick_task_from_phase}
use cloche.Host.Loop.Picks.Handed.{handed, is_free}
use cloche.Host.Loop.Picks.First.{IsFirst, pick_task_from_phase-IsFirst}
use cloche.Host.Loop.Runner.Stops.{replay-stopped}
use cloche.Host.Loop.Picks.{Round, rounds, pick_task_from_phase-rounds}
use cloche.Host.Loop.Attempts.{
  Store, Saves, attempt_started, attempt_ended, create_attempt_for_task, complete_attempt,
}
use cloche.Host.Loop.Runner
use cloche.Host.Loop.Runner.{Runner, Event, panics, looks, picks, begin}
use cloche.Host.Loop.Runner.Bounded.{replay-IsBounded, replay-finish}
use cloche.Host.Loop.Runner.Unfinished.{replay-AreHeld}
use cloche.Host.Loop.Runner.Counted.{failures_since, received}
use cloche.Host.Loop.Runner.Halts.{replay-received}

abbrev task : Task
task = record { id = "t1"; status = "open"; title = "Fix it"; description = ""; metadata = [] }

abbrev config : LoopConfig
config = record {
  project_dir = "/p";
  max_concurrent = pos 1;
  stagger_delay = negsuc 4;
  dedup_timeout = pos 10;
  stop_on_error = false;
  max_consecutive_failures = pos 1;
}

abbrev empty_store : Store
empty_store = record { tasks = []; attempts = []; activity = []; titles = [] }

abbrev all_saved : Saves
all_saved = record {
  task_saved = true;
  attempt_read = true;
  attempt_saved = true;
  run_saved = true;
}

abbrev launches : List Event
launches = looks (some []) ∷ picks (some (task ∷ [])) "a1" 100 all_saved ∷ []

abbrev one_worker : Runner
one_worker = record {
  loop = record {
    project_dir = "/p";
    config = limits config;
    running = true;
    consecutive_failures = 0;
    dedup = ("t1", 100) ∷ [];
    last_tasks = task ∷ [];
    task_runs = [];
    has_task_store = true;
    has_activity_log = true;
  };
  store = record {
    tasks =
        ("t1", record { id = "t1"; title = "Fix it"; project_dir = "/p"; created_at = 100 }) ∷ [];
    attempts = ("a1", new_attempt "a1" "t1" 100) ∷ [];
    activity = attempt_started "t1" "a1" ∷ [];
    titles = [];
  };
  stage = Runner.waiting;
  in_flight = 1;
  launched = 1;
  workers = record { task_id = "t1"; task_title = "Fix it"; attempt_id = "a1" } ∷ [];
  completions = [];
  polls_driven = 1;
}

launched_one : Runner.replay launches (begin config empty_store) ≡ some one_worker
unfolding begin Runner.replay Runner.step Runner.look Runner.pick_and_launch Runner.launch
    Runner.at_look Runner.at_pick Runner.finish Runner.receive Runner.judge create_attempt_for_task
    complete_attempt Loop.new_phase_loop limits Loop.positive_or Loop.start pick_task_from_phase
    Loop.pick Loop.unexpired Loop.assign Loop.is_open Loop.count_active_host_runs
    Loop.count_host_runs Loop.is_assigned lookup insert take_at Runner.track
    attempt_result_from_run_state Runner.final_state Loop.record_consecutive_failure Loop.stop
    new_attempt complete
launched_one = refl

replay-IsBounded_example :
    (one_worker.in_flight ≡ length one_worker.workers + length one_worker.completions)
    × (one_worker.in_flight ≤ (limits config).max_concurrent)
replay-IsBounded_example = replay-IsBounded launches config empty_store one_worker launched_one

replay-finish_example : (r : Runner) × (Runner.finish 0 panics 200 all_saved one_worker ≡ some r)
replay-finish_example =
    replay-finish launches config empty_store one_worker 0 panics 200 all_saved launched_one
      (omega arith)

replay-AreHeld_example : Any (λ w. w.attempt_id ≡ "a1") one_worker.workers
unfolding new_attempt lookup
replay-AreHeld_example =
    replay-AreHeld launches config empty_store one_worker (tt, ((λ e. cc), tt))
      (λ id a found. absurd (cc)) launched_one "a1" (new_attempt "a1" "t1" 100) refl refl

abbrev fails_once : List Event
fails_once = launches ++ Runner.Event.finishes 0 panics 200 all_saved ∷ Runner.Event.receives ∷ []

abbrev given_up : Runner
given_up = record one_worker {
  loop = record one_worker.loop { running = false; consecutive_failures = 1 };
  store = record one_worker.store {
    attempts = ("a1", complete 200 attempt_failed (new_attempt "a1" "t1" 100)) ∷ [];
    activity = attempt_started "t1" "a1" ∷ attempt_ended "t1" "a1" attempt_failed ∷ [];
  };
  stage = Runner.ended;
  in_flight = 0;
  workers = [];
}

failed_once : Runner.replay fails_once (begin config empty_store) ≡ some given_up
unfolding begin Runner.replay Runner.step Runner.look Runner.pick_and_launch Runner.launch
    Runner.at_look Runner.at_pick Runner.finish Runner.receive Runner.judge create_attempt_for_task
    complete_attempt Loop.new_phase_loop limits Loop.positive_or Loop.start pick_task_from_phase
    Loop.pick Loop.unexpired Loop.assign Loop.is_open Loop.count_active_host_runs
    Loop.count_host_runs Loop.is_assigned lookup insert take_at Runner.track
    attempt_result_from_run_state Runner.final_state Loop.record_consecutive_failure Loop.stop
    new_attempt complete
failed_once = refl

replay-received_example :
    ((given_up.stage ≡ Runner.ended) ↔ (
      (limits config).max_consecutive_failures
      ≤ failures_since (received fails_once (begin config empty_store) [])))
    × ((given_up.loop.running ≡ false) ↔ (given_up.stage ≡ Runner.ended))
replay-received_example =
    replay-received fails_once config empty_store given_up refl (refl, (refl, (refl, (refl, tt))))
      failed_once

abbrev idle : Loop
idle = new_phase_loop config

pick_task_from_phase-rounds_example : (limits config).dedup_timeout ≤ 110 - 100
unfolding new_phase_loop pick_task_from_phase Loop.pick Loop.unexpired Loop.assign Loop.is_open
    Loop.is_assigned lookup insert limits Loop.positive_or rounds
pick_task_from_phase-rounds_example =
    pick_task_from_phase-rounds (some (task ∷ [])) (some (task ∷ [])) 100 110
      (record { tasks = some (task ∷ []); now = 105 } ∷ []) idle task task refl (λ e. cc)
      (omega arith, tt) refl refl

abbrev second : Task
second = record { id = "t2"; status = ""; title = "Test it"; description = ""; metadata = [] }

abbrev one_round : List Round
one_round = record { tasks = some (task ∷ []); now = 100 } ∷ []

second_is_next :
    (pick_task_from_phase
      (some (task ∷ second ∷ []))
      105
      (rounds one_round (new_phase_loop config))).0
    ≡ some second
unfolding new_phase_loop pick_task_from_phase Loop.pick Loop.unexpired Loop.assign Loop.is_open
    Loop.is_assigned lookup insert limits Loop.positive_or rounds
second_is_next = refl

pick_task_from_phase-IsFirst_example :
    IsFirst
      (is_free 105 (limits config).dedup_timeout (handed one_round (new_phase_loop config) []))
      (task ∷ second ∷ [])
      (pick_task_from_phase
        (some (task ∷ second ∷ []))
        105
        (rounds one_round (new_phase_loop config))).0
pick_task_from_phase-IsFirst_example =
    pick_task_from_phase-IsFirst config one_round (task ∷ second ∷ []) 105 (tt, omega arith, tt)

abbrev stopped_one : Runner
stopped_one = record one_worker { loop = record one_worker.loop { running = false } }

stops_one :
    Runner.replay (launches ++ Runner.Event.stops ∷ []) (begin config empty_store)
    ≡ some stopped_one
unfolding begin Runner.replay Runner.step Runner.look Runner.pick_and_launch Runner.launch
    Runner.at_look Runner.at_pick Runner.finish Runner.receive Runner.judge create_attempt_for_task
    complete_attempt Loop.new_phase_loop limits Loop.positive_or Loop.start pick_task_from_phase
    Loop.pick Loop.unexpired Loop.assign Loop.is_open Loop.count_active_host_runs
    Loop.count_host_runs Loop.is_assigned lookup insert take_at Runner.track
    attempt_result_from_run_state Runner.final_state Loop.record_consecutive_failure Loop.stop
    new_attempt complete
stops_one = refl

fails_later :
    Runner.replay
      (Runner.Event.finishes 0 panics 200 all_saved ∷ Runner.Event.receives ∷ [])
      stopped_one
    ≡ some given_up
unfolding begin Runner.replay Runner.step Runner.look Runner.pick_and_launch Runner.launch
    Runner.at_look Runner.at_pick Runner.finish Runner.receive Runner.judge create_attempt_for_task
    complete_attempt Loop.new_phase_loop limits Loop.positive_or Loop.start pick_task_from_phase
    Loop.pick Loop.unexpired Loop.assign Loop.is_open Loop.count_active_host_runs
    Loop.count_host_runs Loop.is_assigned lookup insert take_at Runner.track
    attempt_result_from_run_state Runner.final_state Loop.record_consecutive_failure Loop.stop
    new_attempt complete
fails_later = refl

replay-stopped_example :
    (given_up.loop.running ≡ false)
    × (given_up.in_flight
          + length (
              received
                (Runner.Event.finishes 0 panics 200 all_saved ∷ Runner.Event.receives ∷ [])
                stopped_one
                [])
        ≤ stopped_one.in_flight + 1)
replay-stopped_example =
    replay-stopped (launches ++ Runner.Event.stops ∷ [])
      (Runner.Event.finishes 0 panics 200 all_saved ∷ Runner.Event.receives ∷ []) config empty_store
      stopped_one given_up stops_one refl fails_later
