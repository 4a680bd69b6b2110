-- ===== src/Workflow/Validate/Correct.antt =====
-- `Validate` accepts exactly the well-formed workflows.
use cloche.Base.{
  String, ◌≡◌, refl, ◌↔◌, true, false, not, ◌&&◌, List, [], ◌∷◌, ◌==◌, has, any, any_iff, All, Any,
  All-map, arith, eq_iff, ok, >>=-eq-ok, guard,
}
use cloche.Workflow.{Wire, Collect, WireCondition, Workflow, is_terminal, leaves}
use cloche.Workflow.Validate.{
  Marks, no_entry_step, entry_not_found, is_wired, is_reachable, mark_wires, check_collects,
  check_wired, check_reachable, start_marks, validate,
}
use cloche.Workflow.Validate.Spec.{
  Leaves, Names, IsHandled, IsTargeted, WellFormed, has_iff, is_terminal_iff, leaves_iff,
}
use cloche.Workflow.Validate.Sets.{
  names, aims, mark_collects, is_wired-mark_wires, is_reachable-mark_wires, is_wired-mark_collects,
  is_reachable-mark_collects,
}
use cloche.Workflow.Validate.Checks.{
  guard_iff, >>-eq-ok, check_collects_sound, check_collects_complete, check_wired_iff,
  check_reachable_iff, check_agents_iff,
}

-- The sets after both loops.
abbrev final_marks : Workflow → Marks
final_marks w = mark_collects w.collects (mark_wires w.wiring (start_marks w))

names_iff : (s r : String) (c : WireCondition) → (names s r c ≡ true) ↔ Names s r c
names_iff s r c = ground (arith, eq_iff c.step s, eq_iff c.result r)

handles_iff :
    (s r : String) (c : Collect)
    → (any (names s r) c.conditions ≡ true) ↔ Any (Names s r) c.conditions
handles_iff s r c = any_iff (names s r) (Names s r) (names_iff s r) c.conditions

is_wired_start : (w : Workflow) (s r : String) → is_wired (start_marks w) s r ≡ false
unfolding is_wired any
is_wired_start w s r = refl

is_wired_final :
    (w : Workflow) (s r : String) → (is_wired (final_marks w) s r ≡ true) ↔ IsHandled w s r
is_wired_final w s r = ground (
  arith,
  is_wired-mark_collects w.collects (mark_wires w.wiring (start_marks w)) s r,
  is_wired-mark_wires w.wiring (start_marks w) s r,
  is_wired_start w s r,
  any_iff (leaves s r) (Leaves s r) (leaves_iff s r) w.wiring,
  any_iff (λ c. any (names s r) c.conditions) (λ c. Any (Names s r) c.conditions) (handles_iff s r)
      w.collects,
)

-- A loop over targets leaves out the two that are no steps.
any-aims {ℓ} :
    {A : Type ℓ} (target : A → String) (s : String) (xs : List A)
    → any (λ x. aims s (target x)) xs ≡ (not (is_terminal s) && any (λ x. target x == s) xs)
unfolding any
any-aims target s [] = ground arith
any-aims target s (x ∷ xs) = ground (arith, eq_iff (target x) s, any-aims target s xs)

is_reachable_start :
    (w : Workflow) (s : String) → (is_reachable (start_marks w) s ≡ true) ↔ (w.entry_step ≡ s)
unfolding is_reachable any
is_reachable_start w s = ground (arith, eq_iff w.entry_step s)

is_reachable_final :
    (w : Workflow) (s : String) → (is_reachable (final_marks w) s ≡ true) ↔ IsTargeted w s
is_reachable_final w s = ground (
  arith,
  is_reachable-mark_collects w.collects (mark_wires w.wiring (start_marks w)) s,
  is_reachable-mark_wires w.wiring (start_marks w) s,
  is_reachable_start w s,
  is_terminal_iff s,
  any-aims {0} (λ (x : Wire). x.target) s w.wiring,
  any-aims {0} (λ (x : Collect). x.target) s w.collects,
  any_iff (λ (x : Wire). x.target == s) (λ x. x.target ≡ s) (λ x. eq_iff x.target s) w.wiring,
  any_iff (λ (x : Collect). x.target == s) (λ x. x.target ≡ s) (λ x. eq_iff x.target s) w.collects,
)

entry_named_iff : (w : Workflow) → (not (w.entry_step == "") ≡ true) ↔ ¬ (w.entry_step ≡ "")
entry_named_iff w = ground (arith, eq_iff w.entry_step "")

-- What the checks behind the loops say of the sets, in the terms of the specification.
IsHandled-iff :
    (w : Workflow)
    → (check_wired (final_marks w) w.steps ≡ ok tt)
      ↔ All (λ e. All (IsHandled w e.0) e.1.results) w.steps
IsHandled-iff w = (
  λ h.
      All-map (λ e. All-map (λ r. (is_wired_final w e.0 r).0) e.1.results) w.steps
        ((check_wired_iff (final_marks w) w.steps).0 h),
  λ h.
      (check_wired_iff (final_marks w) w.steps).1
        (All-map (λ e. All-map (λ r. (is_wired_final w e.0 r).1) e.1.results) w.steps h),
)

IsTargeted-iff :
    (w : Workflow)
    → (check_reachable (final_marks w) w.steps ≡ ok tt) ↔ All (λ e. IsTargeted w e.0) w.steps
IsTargeted-iff w = (
  λ h.
      All-map (λ e. (is_reachable_final w e.0).0) w.steps
        ((check_reachable_iff (final_marks w) w.steps).0 h),
  λ h.
      (check_reachable_iff (final_marks w) w.steps).1
        (All-map (λ e. (is_reachable_final w e.0).1) w.steps h),
)

pub validate_sound : (w : Workflow) → validate w ≡ ok tt → WellFormed w
unfolding validate
validate_sound w h =
    let (named, found_later) = (>>-eq-ok (guard (not (w.entry_step == "")) no_entry_step) _).0 h in
    let (found, collects_later) =
      (>>-eq-ok (guard (has w.entry_step w.steps) (entry_not_found w.entry_step)) _).0
        found_later in
    let (m, collects, rest) = >>=-eq-ok (check_collects w w.collects _) _ collects_later in
    let (fit, same) =
      check_collects_sound w w.collects (mark_wires w.wiring (start_marks w)) collects in
    let (handled, rest') = (>>-eq-ok (check_wired m w.steps) _).0 rest in
    let (targeted, agents) = (>>-eq-ok (check_reachable m w.steps) _).0 rest' in
    record {
      entry_named = (entry_named_iff w).0 ((guard_iff _ no_entry_step).0 named);
      entry_found = (has_iff w.entry_step w.steps).0 ((guard_iff _ _).0 found);
      collects_fit = fit;
      results_handled = (IsHandled-iff w).0 (rw same handled);
      steps_targeted = (IsTargeted-iff w).0 (rw same targeted);
      agents_fit = (check_agents_iff w.agents w.steps).0 agents;
    }

validate_complete : (w : Workflow) → WellFormed w → validate w ≡ ok tt
unfolding validate
validate_complete w f = rw ((entry_named_iff w).1 f.entry_named) (
    rw ((has_iff w.entry_step w.steps).1 f.entry_found) (
      rw (check_collects_complete w w.collects (mark_wires w.wiring (start_marks w)) f.collects_fit)
        (rw ((IsHandled-iff w).1 f.results_handled) (
          rw ((IsTargeted-iff w).1 f.steps_targeted)
            ((check_agents_iff w.agents w.steps).1 f.agents_fit)))))

-- `Validate` returns no error exactly when the workflow is well formed: the entry step is named and
-- exists, every collect targets a step or a terminal and its conditions name declared results of
-- steps, every declared result is taken by a wire or a collect, every step is the entry or some
-- target, and every agent that a step refers to is declared and stands on a prompt step.
pub validate_iff : (w : Workflow) → (validate w ≡ ok tt) ↔ WellFormed w
validate_iff w = (validate_sound w, validate_complete w)
