-- ===== src/Workflow/Validate/Routes.antt =====
-- What `Validate` gives the engine: where the results of a validated workflow lead.
use cloche.Base.{
  String, ◌≡◌, refl, ◌↔◌, ◌⊎◌, inl, inr, Bool, true, false, some, List, [], ◌∷◌, ◌++◌, ◌==◌, Dict,
  lookup, any, any_iff, keep_if, All, Any, All-map, Any-append_left, ok, arith, eq_iff,
}
use cloche.Workflow.{Step, Wire, WireCondition, Collect, Workflow, leaves, next_steps, targets}
use cloche.Workflow.Validate.{validate}
use cloche.Workflow.Validate.Spec.{Leaves, Names, IsHandled, IsTargeted, leaves_iff}
use cloche.Workflow.Validate.Correct.{validate_iff}
use cloche.Engine.Wiring.{collect_handled, is_for}

abbrev KeepsSome : (Wire → Bool) → List Wire → Type 0
KeepsSome p ws = (t : String) × (ts : List String) × (targets (keep_if p ws) ≡ t ∷ ts)

keeps_some : (p : Wire → Bool) (ws : List Wire) → any p ws ≡ true → KeepsSome p ws
unfolding any keep_if targets
keeps_some p [] h = absurd (ground (arith, h))
keeps_some p (w ∷ ws) h = by_test (p w) refl (λ k. keeps_some p ws k)
  where
    by_test : (b : Bool) → p w ≡ b → (any p ws ≡ true → KeepsSome p ws) → KeepsSome p (w ∷ ws)
    by_test true e rest = (w.target, targets (keep_if p ws), ground (arith, e))
    by_test false e rest =
        let (t, ts, same) = rest (ground (arith, e, h)) in (t, ts, ground (arith, e, same))

at_key :
    (P : String → Step → Type 0) (name : String) (step : Step) (m : Dict Step)
    → lookup name m ≡ some step
    → All (λ e. P e.0 e.1) m
    → P name step
unfolding lookup
at_key P name step [] h k = absurd (ground (arith, h))
at_key P name step ((j, s) ∷ m) h (here, there) =
    ground (arith, eq_iff j name, at_key P name step m)

declared_at :
    (P : String → Type 0) (result : String) (results : List String)
    → any (λ r. r == result) results ≡ true
    → All P results
    → P result
unfolding any
declared_at P result [] h k = absurd (ground (arith, h))
declared_at P result (r ∷ rs) h (here, there) =
    ground (arith, eq_iff r result, declared_at P result rs)

is_for_iff :
    (step result : String) (c : WireCondition) → (is_for step result c ≡ true) ↔ Names step result c
is_for_iff step result c = ground (arith, eq_iff c.step step, eq_iff c.result result)

-- In a validated workflow every result that a step declares leads on: `NextSteps` returns a target for
-- it, or it is one of the conditions of a collect.
pub validate-next_steps :
    (w : Workflow) (name : String) (step : Step) (result : String)
    → validate w ≡ ok tt
    → lookup name w.steps ≡ some step
    → any (λ r. r == result) step.results ≡ true
    → ((t : String) × (ts : List String) × (next_steps w name result ≡ ok (t ∷ ts)))
      ⊎ (collect_handled w name result ≡ true)
unfolding next_steps collect_handled
validate-next_steps w name step result valid found declared =
    let all_handled = ((validate_iff w).0 valid).results_handled in
    let handled =
      at_key (λ n s. All (IsHandled w n) s.results) name step w.steps found all_handled in
    elim (declared_at (IsHandled w name) result step.results declared handled) [
      | inl wired ↦
          let (t, ts, same) = keeps_some (leaves name result) w.wiring (
            (any_iff (leaves name result) (Leaves name result) (leaves_iff name result) w.wiring).1
              wired) in
          inl (t, ts, rw same refl)
      | inr taken ↦ inr (
          (any_iff _ (λ (c : Collect). Any (Names name result) c.conditions)
              (λ c. any_iff _ (Names name result) (is_for_iff name result) c.conditions)
              w.collects).1
            taken)
    ]

-- A validated workflow stays valid with one more wire, whatever the wire's target is: `Validate` does not
-- ask that the target of a wire exists.
pub validate-wires :
    (w : Workflow) (wire : Wire)
    → validate w ≡ ok tt
    → validate (record w { wiring = w.wiring ++ wire ∷ [] }) ≡ ok tt
validate-wires w wire valid =
    let f = (validate_iff w).0 valid in
    (validate_iff (record w { wiring = w.wiring ++ wire ∷ [] })).1 (record {
      entry_named = f.entry_named;
      entry_found = f.entry_found;
      collects_fit = f.collects_fit;
      results_handled =
          All-map (λ e. All-map (more_handled e.0) (e.1).results) w.steps f.results_handled;
      steps_targeted = All-map (λ e. more_targeted e.0) w.steps f.steps_targeted;
      agents_fit = f.agents_fit;
    })
  where
    more_handled :
        (name result : String)
        → IsHandled w name result
        → IsHandled (record w { wiring = w.wiring ++ wire ∷ [] }) name result
    more_handled name result (inl h) =
        inl (Any-append_left (Leaves name result) w.wiring (wire ∷ []) h)
    more_handled name result (inr h) = inr h

    more_targeted :
        (name : String)
        → IsTargeted w name
        → IsTargeted (record w { wiring = w.wiring ++ wire ∷ [] }) name
    more_targeted name (inl h) = inl h
    more_targeted name (inr (t, inl h)) =
        inr (t, inl (Any-append_left (λ (x : Wire). x.target ≡ name) w.wiring (wire ∷ []) h))
    more_targeted name (inr (t, inr h)) = inr (t, inr h)
