-- ===== src/Workflow.antt =====
-- internal/domain/workflow.go: the workflow graph and its queries. A Go map is a `Dict`.
pub mod Validate
use cloche.Base.{
  String, Bool, true, false, not, ◌&&◌, ◌||◌, Option, none, some, List, [], ◌∷◌, ◌++◌, ◌==◌,
  if◌then◌else◌, Dict, lookup, insert, has, any, keep_if, Result, ok, err, map, eqb,
}
use Prim.Native.Nat.{ℕ}
use Prim.Native.Char.{code}
use Prim.Native.String

pub data StepType : Type 0 where
  agent script workflow human : StepType
  -- the zero value of a Go string type, before the parser has inferred the type
  unset : StepType

pub data Location : Type 0 where
  container host : Location
  -- no location was given to the parser
  unknown : Location

pub record Step : Type 0 where
  pub name : String
  pub type : StepType
  pub results : List String
  pub config : Dict String

pub record Wire : Type 0 where
  pub source : String
  pub result : String
  pub target : String
  pub implicit : Bool

pub data CollectMode : Type 0 where
  collect_all collect_any : CollectMode

pub record WireCondition : Type 0 where
  pub step : String
  pub result : String

pub record Collect : Type 0 where
  pub mode : CollectMode
  pub conditions : List WireCondition
  pub target : String

pub record Agent : Type 0 where
  pub name : String
  pub command : String
  pub args : String

pub record Workflow : Type 0 where
  pub name : String
  pub location : Location
  pub steps : Dict Step
  pub agents : Dict Agent
  pub wiring : List Wire
  pub collects : List Collect
  pub entry_step : String
  pub config : Dict String
  pub repos : List String

abbrev pub step_done : String
step_done = "done"

abbrev pub step_abort : String
step_abort = "abort"

-- The two targets that are no steps.
unfoldable pub is_terminal : String → Bool
is_terminal target = target == step_done || target == step_abort

abbrev pub default_container_id : String
default_container_id = "_default"

container_id_in : Location → Option String → String
container_id_in host id = ""
container_id_in _ (some id) = if id == "" then default_container_id else id
container_id_in _ none = default_container_id

-- `ContainerID`
unfoldable pub container_id : Workflow → String
unfolding container_id_in
container_id w = container_id_in w.location (lookup "container.id" w.config)

-- The wires that leave a step by a result.
unfoldable pub leaves : String → String → Wire → Bool
leaves step result wire = wire.source == step && wire.result == result

unfoldable pub targets : List Wire → List String
targets [] = []
targets (w ∷ ws) = w.target ∷ targets ws

pub data NextError : Type 0 where
  no_wiring : String → String → NextError

unfoldable pub some_targets : String → String → List String → Result NextError (List String)
some_targets step result [] = err (no_wiring step result)
some_targets step result (t ∷ ts) = ok (t ∷ ts)

-- `NextSteps`
unfoldable pub next_steps : Workflow → String → String → Result NextError (List String)
unfolding targets some_targets keep_if leaves
next_steps w step result =
    some_targets step result (targets (keep_if (leaves step result) w.wiring))

first_target : List String → Result NextError String
first_target [] = ok ""
first_target (t ∷ ts) = ok t

then_first : Result NextError (List String) → Result NextError String
unfolding first_target
then_first (err e) = err e
then_first (ok ts) = first_target ts

-- `NextStep`; `NextSteps` never returns an empty list with no error
unfoldable pub next_step : Workflow → String → String → Result NextError String
unfolding then_first
next_step w step result = then_first (next_steps w step result)

set_if_absent : String → String → Dict String → Dict String
set_if_absent key value config =
    if not (has key config) && not (value == "") then insert key value config else config

resolve_with : Option Agent → Step → Step
unfolding set_if_absent
resolve_with none step = step
resolve_with (some a) step = record step {
  config = set_if_absent "agent_args" a.args (set_if_absent "agent_command" a.command step.config);
}

resolve_ref : Dict Agent → Option String → Step → Step
unfolding resolve_with
resolve_ref agents none step = step
resolve_ref agents (some ref) step = resolve_with (lookup ref agents) step

unfoldable pub resolve_steps : Dict Agent → Dict Step → Dict Step
unfolding resolve_ref
resolve_steps agents [] = []
resolve_steps agents ((k, step) ∷ rest) =
    (k, resolve_ref agents (lookup "agent" step.config) step) ∷ resolve_steps agents rest

-- `ResolveAgents`
unfoldable pub resolve_agents : Workflow → Workflow
unfolding resolve_steps
resolve_agents w = record w { steps = resolve_steps w.agents w.steps }

-- `ValidateLocation`: no location forbids anything.
unfoldable pub validate_location : {E : Type 0} → Workflow → Result E (Unit {0})
validate_location w = ok tt

is_known_key : String → Bool
is_known_key key =
    any (λ known. key == known)
      ("prompt" ∷ "run" ∷ "max_attempts" ∷ "timeout" ∷ "agent_command" ∷ "agent_args" ∷ "agent"
        ∷ "results" ∷ "workflow_name" ∷ "prompt_step" ∷ "usage_command" ∷ "repository" ∷ "poll"
        ∷ "interval" ∷ "skip" ∷ "token-limit" ∷ [])

has_prefix : String → String → Bool
has_prefix String.[] s = true
has_prefix (String.◌∷◌ c p) String.[] = false
has_prefix (String.◌∷◌ c p) (String.◌∷◌ d s) = eqb (code c) (code d) && has_prefix p s

-- The keys of a step that `ValidateConfig` warns of.
unknown_keys : Dict String → List String
unfolding is_known_key has_prefix
unknown_keys [] = []
unknown_keys ((key, value) ∷ config) =
    if is_known_key key || has_prefix "container." key || has_prefix "host." key
    then unknown_keys config
    else key ∷ unknown_keys config

-- `ValidateConfig`: the steps with the keys that it warns of
unfoldable pub validate_config : Dict Step → List (String × String)
unfolding unknown_keys
validate_config [] = []
validate_config ((name, step) ∷ steps) =
    map (λ key. (name, key)) (unknown_keys step.config) ++ validate_config steps
