-- ===== src/Workflow/Validate.antt =====
-- `Workflow.Validate` of internal/domain/workflow.go. `wired` is the set of pairs that the Go map of
-- maps holds, and the message of an error is its kind with the names that it quotes.
pub mod Spec
pub mod Sets
pub mod Checks
pub mod Correct
pub mod Routes
use cloche.Base.{
  String, Bool, true, false, not, ◌&&◌, ◌||◌, Option, none, some, List, [], ◌∷◌, ◌++◌, ◌==◌,
  if◌then◌else◌, Dict, lookup, insert, has, any, Result, ok, err, ◌>>=◌, ◌>>◌, guard,
}
use cloche.Workflow.{
  StepType, agent, script, workflow, human, unset, Step, Wire, WireCondition, Collect, Agent,
  Workflow, is_terminal,
}

pub data Invalid : Type 0 where
  no_entry_step : Invalid
  entry_not_found : String → Invalid
  collect_target_not_found : String → Invalid
  collect_unknown_step : String → Invalid
  collect_undeclared_result : String → String → Invalid
  result_not_wired : String → String → Invalid
  orphaned : String → Invalid
  undeclared_agent : String → String → Invalid
  agent_on_other_step : String → String → Invalid

abbrev pub Checked : Type 0
Checked = Result Invalid (Unit {0})

-- The two sets that the loops build.
pub record Marks : Type 0 where
  pub wired : List (String × String)
  pub reachable : List String

pub is_wired : Marks → String → String → Bool
unfolding any
is_wired m step result = any (λ p. p.0 == step && p.1 == result) m.wired

pub is_reachable : Marks → String → Bool
unfolding any
is_reachable m step = any (λ s. s == step) m.reachable

abbrev pub mark_wired : String → String → Marks → Marks
mark_wired step result m = record m { wired = (step, result) ∷ m.wired }

abbrev pub mark_target : String → Marks → Marks
mark_target target m =
    if is_terminal target then m else record m { reachable = target ∷ m.reachable }

-- the loop over `w.Wiring`
pub mark_wires : List Wire → Marks → Marks
mark_wires [] m = m
mark_wires (wire ∷ wires) m =
    mark_wires wires (mark_target wire.target (mark_wired wire.source wire.result m))

-- `isResultDeclared`, and the inner loop of the check of a condition
pub declares : Step → String → Bool
unfolding any
declares step result = any (λ r. r == result) step.results

check_condition : Option Step → WireCondition → Checked
unfolding declares
check_condition none c = err (collect_unknown_step c.step)
check_condition (some s) c = guard (declares s c.result) (collect_undeclared_result c.result c.step)

pub check_conditions : Workflow → List WireCondition → Marks → Result Invalid Marks
unfolding check_condition
check_conditions w [] m = ok m
check_conditions w (c ∷ cs) m = do
  check_condition (lookup c.step w.steps) c
  check_conditions w cs (mark_wired c.step c.result m)

pub check_target : Workflow → Collect → Checked
check_target w c =
    guard (is_terminal c.target || has c.target w.steps) (collect_target_not_found c.target)

-- the loop over `w.Collects`
pub check_collects : Workflow → List Collect → Marks → Result Invalid Marks
unfolding check_target check_conditions
check_collects w [] m = ok m
check_collects w (c ∷ cs) m = do
  check_target w c
  m' ← check_conditions w c.conditions (mark_target c.target m)
  check_collects w cs m'

pub check_results : Marks → String → List String → Checked
unfolding is_wired
check_results m name [] = ok tt
check_results m name (r ∷ rs) = do
  guard (is_wired m name r) (result_not_wired name r)
  check_results m name rs

pub check_wired : Marks → Dict Step → Checked
unfolding check_results
check_wired m [] = ok tt
check_wired m ((name, step) ∷ rest) = do check_results m name step.results; check_wired m rest

pub check_reachable : Marks → Dict Step → Checked
unfolding is_reachable
check_reachable m [] = ok tt
check_reachable m ((name, step) ∷ rest) = do
  guard (is_reachable m name) (orphaned name)
  check_reachable m rest

abbrev is_agent : StepType → Bool
is_agent agent = true
is_agent _ = false

-- An absent key gives the nil agent; the map holds no nil of its own.
check_agent : Dict Agent → String → Option String → StepType → Checked
check_agent agents name none type = ok tt
check_agent agents name (some ref) type = do
  guard (has ref agents) (undeclared_agent name ref)
  guard (is_agent type) (agent_on_other_step name ref)

pub check_agents : Dict Agent → Dict Step → Checked
unfolding check_agent
check_agents agents [] = ok tt
check_agents agents ((name, step) ∷ rest) = do
  check_agent agents name (lookup "agent" step.config) step.type
  check_agents agents rest

abbrev pub start_marks : Workflow → Marks
start_marks w = record { wired = []; reachable = w.entry_step ∷ [] }

-- `Validate`
unfoldable pub validate : Workflow → Checked
unfolding mark_wires check_collects check_wired check_reachable check_agents is_terminal lookup has
validate w = do
  guard (not (w.entry_step == "")) no_entry_step
  guard (has w.entry_step w.steps) (entry_not_found w.entry_step)
  m ← check_collects w w.collects (mark_wires w.wiring (start_marks w))
  check_wired m w.steps
  check_reachable m w.steps
  check_agents w.agents w.steps
