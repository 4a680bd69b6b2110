-- ===== src/Dsl/Parser/Fixups.antt =====
-- internal/dsl/parser.go, parseWorkflow: the fixups at its end. Each gives every step a result that no
-- step has to declare, and a wire for it where none was written.
use Prim.Native.String.{String}
use cloche.Base.{
  Bool, true, none, some, List, [], ◌∷◌, ◌++◌, ◌==◌, if◌then◌else◌, Dict, lookup, any,
}
use cloche.Workflow.{Step, Wire, Workflow, step_abort, leaves}

unfoldable pub declares : String → List String → Bool
declares result results = any (λ r. r == result) results

unfoldable pub add_result : String → Step → Step
unfolding declares
add_result result step =
    if declares result step.results
    then step
    else record step { results = step.results ++ result ∷ [] }

unfoldable pub add_results : String → Dict Step → Dict Step
unfolding add_result
add_results result [] = []
add_results result ((k, step) ∷ steps) = (k, add_result result step) ∷ add_results result steps

abbrev pub implicit_wire : String → String → String → Wire
implicit_wire name result target = record {
  source = name;
  result = result;
  target = target;
  implicit = true;
}

unfoldable pub add_wire : String → String → String → List Wire → List Wire
unfolding leaves
add_wire name result target wires =
    if any (leaves name result) wires then wires else wires ++ implicit_wire name result target ∷ []

unfoldable pub add_wires : String → String → Dict Step → List Wire → List Wire
unfolding add_wire
add_wires result target [] wires = wires
add_wires result target ((k, step) ∷ steps) wires =
    add_wires result target steps (add_wire k result target wires)

-- One fixup: a result that every step has, and the default target of its wires.
unfoldable pub with_result : String → String → Workflow → Workflow
unfolding add_results add_wires
with_result result target w = record w {
  steps = add_results result w.steps;
  wiring = add_wires result target w.steps w.wiring;
}

unfoldable pub token_limit_target : Workflow → String
token_limit_target w = elim (lookup "_wire.token-limit" w.config) [
  | some target ↦ target
  | none ↦ step_abort
]

unfoldable pub with_token_limit : Workflow → Workflow
unfolding with_result token_limit_target
with_token_limit w = with_result "token-limit" (token_limit_target w) w

-- Both fixups, in the order of the source
unfoldable pub fixups : Workflow → Workflow
unfolding with_result with_token_limit
fixups w = with_token_limit (with_result "timeout" step_abort w)
