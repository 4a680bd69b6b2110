-- ===== src/Evolution/Trigger.antt =====
-- internal/evolution/trigger.go: runs of the evolution are put off until a key is quiet. A timer of
-- `time.AfterFunc` is a cell of a store; it waits, or was stopped, or its goroutine was started, or
-- that goroutine has had the lock and released it, or has called `RunFunc` too.
pub mod Callbacks
pub mod Mapped
pub mod Released
pub mod Stops
pub mod Timers
use Prim.Native.String
use cloche.Base.{
  ℕ, String, Bool, true, false, Option, none, some, List, [], ◌∷◌, ◌++◌, ◌==◌, if◌then◌else◌, eqb,
  leb, length, get_elem?, modify, Dict, lookup, insert, delete,
}
use cloche.Base.Int.{ℤ, pos, negsuc}

pub data Phase : Type 0 where
  waiting stopped started released finished : Phase

pub record Timer : Type 0 where
  pub key : String
  pub project_dir : String
  pub workflow_name : String
  pub run_id : String
  pub phase : Phase

-- `timers` of the source is `pending`; `calls` are the calls of `RunFunc`, newest first.
pub record Trigger : Type 0 where
  pub debounce_seconds : ℕ
  pub pending : Dict ℕ
  pub timers : List Timer
  pub calls : List (String × String × String)

positive_or : ℕ → ℤ → ℕ
positive_or d (pos n) = if eqb n 0 then d else n
positive_or d (negsuc n) = d

-- `NewTrigger`
unfoldable pub new_trigger : ℤ → Trigger
unfolding positive_or
new_trigger debounce_seconds = record {
  debounce_seconds = positive_or 30 debounce_seconds;
  pending = [];
  timers = [];
  calls = [];
}

-- `timer.Stop()`, which does nothing once the goroutine was started
unfoldable pub stop_timer : Timer → Timer
stop_timer t = elim t.phase [ waiting ↦ record t { phase = stopped } | _ ↦ t ]

unfoldable pub stop_at : Option ℕ → List Timer → List Timer
unfolding stop_timer modify
stop_at none ts = ts
stop_at (some i) ts = modify i stop_timer ts

-- the body of `Fire` behind the key
unfoldable pub fire_key : String → String → String → String → Trigger → Trigger
unfolding stop_at insert lookup
fire_key key project_dir workflow_name run_id t = record t {
  pending = insert key (length t.timers) t.pending;
  timers =
      stop_at (lookup key t.pending) t.timers
      ++ record {
        key = key;
        project_dir = project_dir;
        workflow_name = workflow_name;
        run_id = run_id;
        phase = waiting;
      }
        ∷ [];
}

abbrev pub key_of : String → String → String
key_of project_dir workflow_name = String.◌++◌ project_dir (String.◌++◌ ":" workflow_name)

-- `Fire`
unfoldable pub fire : String → String → String → Trigger → Trigger
unfolding fire_key
fire project_dir workflow_name run_id t =
    fire_key (key_of project_dir workflow_name) project_dir workflow_name run_id t

unfoldable pub start_timer : Timer → Timer
start_timer t = elim t.phase [ waiting ↦ record t { phase = started } | _ ↦ t ]

-- The time of a timer is over: its goroutine starts, and asks for the lock.
unfoldable pub elapse : ℕ → Trigger → Trigger
unfolding modify start_timer
elapse i t = record t { timers = modify i start_timer t.timers }

unfoldable pub release_timer : Timer → Timer
release_timer t = record t { phase = released }

unfoldable pub callback_of : ℕ → Timer → Phase → Trigger → Trigger
callback_of i cell started t = record t {
  pending = delete cell.key t.pending;
  timers = modify i release_timer t.timers;
}
callback_of i cell _ t = t

unfoldable pub callback_at : ℕ → Option Timer → Trigger → Trigger
unfolding callback_of
callback_at i none t = t
callback_at i (some cell) t = callback_of i cell cell.phase t

-- The goroutine of a timer has the lock, deletes the entry of its key, and releases the lock.
unfoldable pub callback : ℕ → Trigger → Trigger
unfolding callback_at delete modify release_timer
callback i t = callback_at i (get_elem? t.timers i) t

unfoldable pub finish_timer : Timer → Timer
finish_timer t = record t { phase = finished }

abbrev pub arguments : Timer → String × String × String
arguments cell = (cell.project_dir, cell.workflow_name, cell.run_id)

unfoldable pub run_func_of : ℕ → Timer → Phase → Trigger → Trigger
run_func_of i cell released t = record t {
  timers = modify i finish_timer t.timers;
  calls = arguments cell ∷ t.calls;
}
run_func_of i cell _ t = t

unfoldable pub run_func_at : ℕ → Option Timer → Trigger → Trigger
unfolding run_func_of
run_func_at i none t = t
run_func_at i (some cell) t = run_func_of i cell cell.phase t

-- The goroutine of a timer calls `RunFunc`, at any time after it has released the lock.
unfoldable pub run_func : ℕ → Trigger → Trigger
unfolding run_func_at modify finish_timer
run_func i t = run_func_at i (get_elem? t.timers i) t

unfoldable pub stop_each : Dict ℕ → List Timer → List Timer
unfolding stop_timer modify
stop_each [] ts = ts
stop_each ((key, i) ∷ rest) ts = stop_each rest (modify i stop_timer ts)

-- `Stop`
unfoldable pub stop : Trigger → Trigger
unfolding stop_each
stop t = record t { pending = []; timers = stop_each t.pending t.timers }

pub data Event : Type 0 where
  fires : String → String → String → Event
  elapses calls_back runs_func : ℕ → Event
  stops : Event

unfoldable pub step : Event → Trigger → Trigger
unfolding fire elapse callback run_func stop
step (fires project_dir workflow_name run_id) t = fire project_dir workflow_name run_id t
step (elapses i) t = elapse i t
step (calls_back i) t = callback i t
step (runs_func i) t = run_func i t
step stops t = stop t

unfoldable pub replay : List Event → Trigger → Trigger
unfolding step
replay [] t = t
replay (e ∷ es) t = replay es (step e t)
