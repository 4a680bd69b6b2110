-- ===== src/Pipeline.antt =====
-- How the parts meet: the engine runs what the parser returned, once it has been validated.
use Prim.Native.Nat.{◌≤◌}
use cloche.Base.{ℕ, String, Bool, false, ◌≡◌, List, ok, err}
use cloche.Workflow.{Location, Workflow}
use cloche.Workflow.Validate.{validate}
use cloche.Engine.{Engine}
use cloche.Engine.Events.{Event, Ended, ran, run}
use cloche.Engine.Returns.{EndsWell}
use cloche.Engine.Terminates.{arrivals, run-ReturnsWell}
use cloche.Dsl.Parser.Complete.{parse-IsComplete, IsComplete-IsKeyed}
use cloche.Dsl.Parser.Workflows.{parse}

-- A file that parses to a workflow which validates is run to an end: with no step override, at
-- least one step allowed and a context that is not done yet when the run starts, and if as many results
-- arrive as steps are allowed, `Run` returns a run that ended well: within the limit of steps, with its
-- end told to the status handler once.
pub parse-run-ReturnsWell :
    (is_duration : String → Bool) (input : String) (location : Location) (w : Workflow) (e : Engine)
    (id : String) (now : ℕ) (vs : List Event)
    → parse is_duration input location ≡ ok w
    → validate w ≡ ok tt
    → e.start_step ≡ ""
    → 1 ≤ e.max_steps
    → e.max_steps ≤ arrivals vs
    → (x : Ended) × (run e w id now false vs ≡ ran (err x)) × EndsWell e x
parse-run-ReturnsWell is_duration input location w e id now vs parsed =
    run-ReturnsWell e w id now vs
      (IsComplete-IsKeyed is_duration w (parse-IsComplete is_duration input location w parsed))
