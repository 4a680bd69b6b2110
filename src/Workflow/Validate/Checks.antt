-- ===== src/Workflow/Validate/Checks.antt =====
-- Each loop of `Validate` succeeds exactly when all that it visits fits.
use cloche.Base.{
  String, ◌≡◌, refl, ◌∙◌, ◌↔◌, ◌⊎◌, Bool, true, false, ◌||◌, List, [], ◌∷◌, ◌==◌, Option, none,
  some, Dict, lookup, has, any_iff, All, Any, arith, eq_iff, Result, ok, err, ◌>>◌, >>=-eq-ok,
  guard, ap, sym,
}
use mathlib.Core.Path.{subst}
use mathlib.Core.Option.{some-injective}
use cloche.Workflow.{StepType, agent, Agent, Step, WireCondition, Collect, Workflow, is_terminal}
use cloche.Workflow.Validate.{
  collect_undeclared_result, collect_target_not_found, result_not_wired, orphaned, undeclared_agent,
  agent_on_other_step, Marks, mark_wired, mark_target, declares, check_condition, check_conditions,
  check_target, check_collects, check_results, check_wired, check_reachable, check_agent,
  check_agents, is_wired, is_reachable, is_agent,
}
use cloche.Workflow.Validate.Spec.{
  HasKey, IsTerminal, ConditionFits, CollectFits, has_iff, is_terminal_iff,
}
use cloche.Workflow.Validate.Sets.{mark_conditions, mark_collects}

pub guard_iff : {E : Type 0} (b : Bool) (e : E) → (guard b e ≡ ok tt) ↔ (b ≡ true)
guard_iff true e = (λ h. refl, λ h. refl)
guard_iff false e = (λ h. cc, λ h. cc)

-- A check followed by another succeeds exactly when both do.
pub >>-eq-ok :
    {E : Type 0} (a b : Result E (Unit {0})) → ((a >> b) ≡ ok tt) ↔ ((a ≡ ok tt) × (b ≡ ok tt))
>>-eq-ok (ok tt) b = (λ h. (refl, h), λ h. h.1)
>>-eq-ok (err e) b = (λ h. cc, λ h. cc)

declares_iff : (s : Step) (r : String) → (declares s r ≡ true) ↔ Any (λ x. x ≡ r) s.results
unfolding declares
declares_iff s r = any_iff (λ x. x == r) (λ x. x ≡ r) (λ x. eq_iff x r) s.results

check_condition_iff :
    (o : Option Step) (c : WireCondition)
    → (check_condition o c ≡ ok tt)
      ↔ ((s : Step) × (o ≡ some s) × Any (λ r. r ≡ c.result) s.results)
unfolding check_condition
check_condition_iff none c = (λ h. cc, λ f. cc (f.1))
check_condition_iff (some s) c =
    let of_guard = guard_iff (declares s c.result) (collect_undeclared_result c.result c.step) in
    (
      λ h. (s, refl, (declares_iff s c.result).0 (of_guard.0 h)),
      λ f. of_guard.1 (
          (declares_iff s c.result).1 (
            subst (λ (x : Step). Any (λ r. r ≡ c.result) x.results) (sym (some-injective s f.0 f.1))
              f.2)),
    )

check_conditions_sound :
    (w : Workflow) (cs : List WireCondition) (m : Marks) {m' : Marks}
    → check_conditions w cs m ≡ ok m'
    → All (ConditionFits w) cs × (mark_conditions cs m ≡ m')
unfolding check_conditions mark_conditions
check_conditions_sound w [] m h = (tt, cc)
check_conditions_sound w (c ∷ cs) m h =
    let (u, first, later) = >>=-eq-ok (check_condition (lookup c.step w.steps) c) _ h in
    let (fits, e) = check_conditions_sound w cs (mark_wired c.step c.result m) later in
    (((check_condition_iff (lookup c.step w.steps) c).0 first, fits), e)

check_conditions_complete :
    (w : Workflow) (cs : List WireCondition) (m : Marks)
    → All (ConditionFits w) cs
    → check_conditions w cs m ≡ ok (mark_conditions cs m)
unfolding check_conditions mark_conditions
check_conditions_complete w [] m h = refl
check_conditions_complete w (c ∷ cs) m h =
    rw ((check_condition_iff (lookup c.step w.steps) c).1 h.0)
      (check_conditions_complete w cs _ h.1)

check_target_iff :
    (w : Workflow) (c : Collect)
    → (check_target w c ≡ ok tt) ↔ (IsTerminal c.target ⊎ HasKey c.target w.steps)
unfolding check_target
check_target_iff w c = ground (
  arith,
  guard_iff (is_terminal c.target || has c.target w.steps) (collect_target_not_found c.target),
  is_terminal_iff c.target,
  has_iff c.target w.steps,
)

pub check_collects_sound :
    (w : Workflow) (cs : List Collect) (m : Marks) {m' : Marks}
    → check_collects w cs m ≡ ok m'
    → All (CollectFits w) cs × (mark_collects cs m ≡ m')
unfolding check_collects mark_collects
check_collects_sound w [] m h = (tt, cc)
check_collects_sound w (c ∷ cs) m h =
    let (u, target, later) = >>=-eq-ok (check_target w c) _ h in
    let (marked, conditions, rest) =
      >>=-eq-ok (check_conditions w c.conditions (mark_target c.target m)) _ later in
    let (fits, same) = check_conditions_sound w c.conditions (mark_target c.target m) conditions in
    let (others, e) = check_collects_sound w cs marked rest in
    ((((check_target_iff w c).0 target, fits), others), ap (mark_collects cs) same ∙ e)

pub check_collects_complete :
    (w : Workflow) (cs : List Collect) (m : Marks)
    → All (CollectFits w) cs
    → check_collects w cs m ≡ ok (mark_collects cs m)
unfolding check_collects mark_collects
check_collects_complete w [] m h = refl
check_collects_complete w (c ∷ cs) m h = rw ((check_target_iff w c).1 h.0.0) (
    rw (check_conditions_complete w c.conditions (mark_target c.target m) h.0.1)
      (check_collects_complete w cs _ h.1))

check_results_iff :
    (m : Marks) (name : String) (rs : List String)
    → (check_results m name rs ≡ ok tt) ↔ All (λ r. is_wired m name r ≡ true) rs
unfolding check_results
check_results_iff m name [] = (λ h. tt, λ h. refl)
check_results_iff m name (r ∷ rs) = ground (
  arith,
  >>-eq-ok (guard (is_wired m name r) (result_not_wired name r)) (check_results m name rs),
  guard_iff (is_wired m name r) (result_not_wired name r),
  check_results_iff m name rs,
)

pub check_wired_iff :
    (m : Marks) (steps : Dict Step)
    → (check_wired m steps ≡ ok tt)
      ↔ All (λ e. All (λ r. is_wired m e.0 r ≡ true) e.1.results) steps
unfolding check_wired
check_wired_iff m [] = (λ h. tt, λ h. refl)
check_wired_iff m ((name, step) ∷ rest) = ground (
  arith,
  >>-eq-ok (check_results m name step.results) (check_wired m rest),
  check_results_iff m name step.results,
  check_wired_iff m rest,
)

pub check_reachable_iff :
    (m : Marks) (steps : Dict Step)
    → (check_reachable m steps ≡ ok tt) ↔ All (λ e. is_reachable m e.0 ≡ true) steps
unfolding check_reachable
check_reachable_iff m [] = (λ h. tt, λ h. refl)
check_reachable_iff m ((name, step) ∷ rest) = ground (
  arith,
  >>-eq-ok (guard (is_reachable m name) (orphaned name)) (check_reachable m rest),
  guard_iff (is_reachable m name) (orphaned name),
  check_reachable_iff m rest,
)

is_agent_iff : (t : StepType) → (is_agent t ≡ true) ↔ (t ≡ agent)
is_agent_iff agent = (λ h. refl, λ h. refl)
is_agent_iff _ = (λ h. cc, λ h. cc)

check_agent_iff :
    (agents : Dict Agent) (name : String) (o : Option String) (type : StepType)
    → (check_agent agents name o type ≡ ok tt)
      ↔ ((ref : String) → o ≡ some ref → HasKey ref agents × (type ≡ agent))
unfolding check_agent
check_agent_iff agents name none type = (λ h ref e. cc, λ h. refl)
check_agent_iff agents name (some ref) type =
    let both =
      >>-eq-ok (guard (has ref agents) (undeclared_agent name ref))
        (guard (is_agent type) (agent_on_other_step name ref)) in
    let declared = guard_iff (has ref agents) (undeclared_agent name ref) in
    let typed = guard_iff (is_agent type) (agent_on_other_step name ref) in
    (
      λ h r e.
          subst (λ (x : String). HasKey x agents × (type ≡ agent)) (some-injective ref r e)
            (
              (has_iff ref agents).0 (declared.0 (both.0 h).0),
              (is_agent_iff type).0 (typed.0 (both.0 h).1),
            ),
      λ f. both.1 (
        declared.1 ((has_iff ref agents).1 (f ref refl).0),
        typed.1 ((is_agent_iff type).1 (f ref refl).1),
      ),
    )

pub check_agents_iff :
    (agents : Dict Agent) (steps : Dict Step)
    → (check_agents agents steps ≡ ok tt)
      ↔ All
          (λ e.
            (ref : String)
            → lookup "agent" e.1.config ≡ some ref
            → HasKey ref agents × (e.1.type ≡ agent))
          steps
unfolding check_agents
check_agents_iff agents [] = (λ h. tt, λ h. refl)
check_agents_iff agents ((name, step) ∷ rest) =
    let found = lookup "agent" step.config in
    let both = >>-eq-ok (check_agent agents name found step.type) (check_agents agents rest) in
    let this = check_agent_iff agents name found step.type in
    let others = check_agents_iff agents rest in
    (λ h. (this.0 (both.0 h).0, others.0 (both.0 h).1), λ f. both.1 (this.1 f.0, others.1 f.1))
