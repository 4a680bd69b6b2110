-- ===== src/Workflow/Validate/Spec.antt =====
-- What a workflow must be for `Validate` to accept it, with no reference to the sets that it builds.
use cloche.Base.{
  String, ◌≡◌, ◌≢◌, ◌⊎◌, ◌↔◌, true, some, lookup, has, All, Any, arith, eq_iff, [], ◌∷◌, Dict,
}
use cloche.Workflow.{
  agent, Step, Wire, WireCondition, Collect, Workflow, is_terminal, step_done, step_abort, leaves,
}

-- Some entry of a map has the key.
abbrev pub HasKey {ℓ} : {V : Type ℓ} → String → Dict V → Type 0
HasKey k m = Any (λ e. e.0 ≡ k) m

abbrev pub IsTerminal : String → Type 0
IsTerminal t = (t ≡ step_done) ⊎ (t ≡ step_abort)

abbrev pub Leaves : String → String → Wire → Type 0
Leaves step result wire = (wire.source ≡ step) × (wire.result ≡ result)

abbrev pub Names : String → String → WireCondition → Type 0
Names step result c = (c.step ≡ step) × (c.result ≡ result)

-- A condition of a collect names a step and one of the results that it declares.
abbrev pub ConditionFits : Workflow → WireCondition → Type 0
ConditionFits w c =
    (s : Step) × (lookup c.step w.steps ≡ some s) × Any (λ r. r ≡ c.result) s.results

abbrev pub CollectFits : Workflow → Collect → Type 0
CollectFits w c =
    (IsTerminal c.target ⊎ HasKey c.target w.steps) × All (ConditionFits w) c.conditions

-- A wire or a condition of a collect takes the result.
abbrev pub IsHandled : Workflow → String → String → Type 0
IsHandled w step result =
    Any (Leaves step result) w.wiring ⊎ Any (λ c. Any (Names step result) c.conditions) w.collects

-- A step is the entry, or the target of some wire or collect.
abbrev pub IsTargeted : Workflow → String → Type 0
IsTargeted w step =
    (w.entry_step ≡ step)
    ⊎ (¬ (IsTerminal step)
        × (Any (λ (wire : Wire). wire.target ≡ step) w.wiring
            ⊎ Any (λ (c : Collect). c.target ≡ step) w.collects))

abbrev pub AgentFits : Workflow → Step → Type 0
AgentFits w s =
    (ref : String) → lookup "agent" s.config ≡ some ref → HasKey ref w.agents × (s.type ≡ agent)

pub record WellFormed (w : Workflow) : Type 0 where
  pub entry_named : w.entry_step ≢ ""
  pub entry_found : HasKey w.entry_step w.steps
  pub collects_fit : All (CollectFits w) w.collects
  pub results_handled : All (λ e. All (IsHandled w e.0) e.1.results) w.steps
  pub steps_targeted : All (λ e. IsTargeted w e.0) w.steps
  pub agents_fit : All (λ e. AgentFits w e.1) w.steps

pub has_iff {ℓ} : {V : Type ℓ} (k : String) (m : Dict V) → (has k m ≡ true) ↔ HasKey k m
unfolding has
has_iff k [] = (λ h. cc, λ h. absurd h)
has_iff k ((j, v) ∷ m) = ground (arith, eq_iff j k, has_iff k m)

pub is_terminal_iff : (t : String) → (is_terminal t ≡ true) ↔ IsTerminal t
unfolding is_terminal
is_terminal_iff t = ground (arith, eq_iff t step_done, eq_iff t step_abort)

pub leaves_iff :
    (step result : String) (w : Wire) → (leaves step result w ≡ true) ↔ Leaves step result w
unfolding leaves
leaves_iff step result w = ground (arith, eq_iff w.source step, eq_iff w.result result)
