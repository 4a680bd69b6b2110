-- ===== src/Host/Loop/Runner/Guards.antt =====
-- What it takes for an event to happen.
use cloche.Base.{ℕ, String, ◌≡◌, refl, some, arith}
use mathlib.Core.Option.{some_inj}
use cloche.Host.Loop.{Task, Loop, pick_task_from_phase}
use cloche.Host.Loop.Runner.{
  Stage, looking, picking, Runner, Outcome, panics, returns, track, at_look, at_pick,
}
use cloche.Base.{Option, none, List}

pub at_look_lem : (s : Stage) (q r' : Runner) → at_look s q ≡ some r' → (s ≡ looking) × (q ≡ r')
unfolding at_look
at_look_lem looking q r' h = (refl, some_inj.0 h)
at_look_lem s q r' h = cc

pub at_pick_lem : (s : Stage) (q r' : Runner) → at_pick s q ≡ some r' → (s ≡ picking) × (q ≡ r')
unfolding at_pick
at_pick_lem picking q r' h = (refl, some_inj.0 h)
at_pick_lem s q r' h = cc

-- A pick and a tracked run leave the rest of the loop as it is.
pub record IsLike (l l' : Loop) : Type 0 where
  pub config : l'.config ≡ l.config
  pub running : l'.running ≡ l.running
  pub failures : l'.consecutive_failures ≡ l.consecutive_failures

pub pick_task_from_phase-IsLike :
    (tasks : Option (List Task)) (now : ℕ) (l : Loop)
    → IsLike l (pick_task_from_phase tasks now l).1
unfolding pick_task_from_phase
pick_task_from_phase-IsLike none now l = record { config = refl; running = refl; failures = refl }
pick_task_from_phase-IsLike (some tasks) now l = record {
  config = refl;
  running = refl;
  failures = refl;
}

pub track-IsLike :
    (outcome : Outcome) (task_id : String) (now : ℕ) (l : Loop)
    → IsLike l (track outcome task_id now l)
unfolding track
track-IsLike panics task_id now l = record { config = refl; running = refl; failures = refl }
track-IsLike (returns none) task_id now l = record {
  config = refl;
  running = refl;
  failures = refl;
}
track-IsLike (returns (some result)) task_id now l = ground arith
