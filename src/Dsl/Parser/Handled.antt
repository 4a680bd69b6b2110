-- ===== src/Dsl/Parser/Handled.antt =====
-- What the fixups at the end of parseWorkflow give every step: its results and its wires.
use Prim.Native.String.{String}
use cloche.Base.{
  true, List, [], ◌∷◌, ◌++◌, ◌==◌, ◌≡◌, refl, inl, inr, Dict, All, All-append, any, any-append,
  Bool-cases, arith, eq_refl,
}
use cloche.Workflow.{Step, Wire, Workflow, step_abort, leaves}
use cloche.Dsl.Parser.Fixups.{
  declares, add_result, add_results, implicit_wire, add_wire, add_wires, with_result,
  token_limit_target, with_token_limit, fixups,
}

-- Some wire leaves a step by a result.
abbrev pub Wired : String → String → List Wire → Type 0
Wired name result wires = any (leaves name result) wires ≡ true

add_wire-Wired :
    (name result target : String) (wires : List Wire)
    → Wired name result (add_wire name result target wires)
unfolding add_wire leaves any
add_wire-Wired name result target wires = ground (
  arith,
  any-append (leaves name result) wires (implicit_wire name result target ∷ []),
  eq_refl name,
  eq_refl result,
)

Wired-add_wire :
    (j r name result target : String) (wires : List Wire)
    → Wired j r wires
    → Wired j r (add_wire name result target wires)
unfolding add_wire
Wired-add_wire j r name result target wires h =
    ground (arith, any-append (leaves j r) wires (implicit_wire name result target ∷ []))

Wired-add_wires :
    (j r result target : String) (steps : Dict Step) (wires : List Wire)
    → Wired j r wires
    → Wired j r (add_wires result target steps wires)
unfolding add_wires
Wired-add_wires j r result target [] wires h = h
Wired-add_wires j r result target ((k, step) ∷ steps) wires h =
    Wired-add_wires j r result target steps (add_wire k result target wires)
      (Wired-add_wire j r k result target wires h)

-- Every step of a map declares a result, and a wire leaves it by that result.
abbrev pub IsHandled : String → Dict Step → List Wire → Type 0
IsHandled result steps wires =
    All (λ e. (declares result (e.1).results ≡ true) × Wired (e.0) result wires) steps

add_wires-Wired :
    (result target : String) (steps : Dict Step) (wires : List Wire)
    → All (λ e. Wired (e.0) result (add_wires result target steps wires)) steps
unfolding add_wires
add_wires-Wired result target [] wires = tt
add_wires-Wired result target ((k, step) ∷ steps) wires =
    let wires' = add_wire k result target wires in
    (
      Wired-add_wires k result result target steps wires' (add_wire-Wired k result target wires),
      add_wires-Wired result target steps wires',
    )

add_result-declares :
    (result : String) (step : Step) → declares result (add_result result step).results ≡ true
unfolding add_result declares any
add_result-declares result step = elim (Bool-cases (declares result step.results)) [
  | inl h ↦ rw h h
  | inr h ↦
      rw h
        (ground (arith, any-append (λ r. r == result) step.results (result ∷ []), eq_refl result))
]

declares-add_result :
    (r result : String) (step : Step)
    → declares r step.results ≡ true
    → declares r (add_result result step).results ≡ true
unfolding add_result declares
declares-add_result r result step h = elim (Bool-cases (declares result step.results)) [
  | inl e ↦ rw e h
  | inr e ↦ rw e (ground (arith, any-append (λ q. q == r) step.results (result ∷ [])))
]

add_results-IsHandled :
    (result : String) (wires : List Wire) (steps : Dict Step)
    → All (λ e. Wired (e.0) result wires) steps
    → IsHandled result (add_results result steps) wires
unfolding add_results
add_results-IsHandled result wires [] h = tt
add_results-IsHandled result wires ((k, step) ∷ steps) (here, there) =
    ((add_result-declares result step, here), add_results-IsHandled result wires steps there)

IsHandled-with_result :
    (r result target : String) (wires : List Wire) (steps all : Dict Step)
    → IsHandled r steps wires
    → IsHandled r (add_results result steps) (add_wires result target all wires)
unfolding add_results
IsHandled-with_result r result target wires [] all h = tt
IsHandled-with_result r result target wires ((k, step) ∷ steps) all ((d, here), there) = (
  (declares-add_result r result step d, Wired-add_wires k r result target all wires here),
  IsHandled-with_result r result target wires steps all there,
)

-- After the fixups every step declares the results "timeout" and "token-limit", and a wire leaves it by
-- each of them.
pub fixups-IsHandled :
    (w : Workflow)
    → IsHandled "timeout" (fixups w).steps (fixups w).wiring
      × IsHandled "token-limit" (fixups w).steps (fixups w).wiring
unfolding fixups with_token_limit with_result
fixups-IsHandled w =
    let w' = with_result "timeout" step_abort w in
    (
      IsHandled-with_result "timeout" "token-limit" (token_limit_target w') w'.wiring w'.steps
          w'.steps
          (add_results-IsHandled "timeout" w'.wiring w.steps
            (add_wires-Wired "timeout" step_abort w.steps w.wiring)),
      add_results-IsHandled "token-limit" (fixups w).wiring w'.steps
          (add_wires-Wired "token-limit" (token_limit_target w') w'.steps w'.wiring),
    )

-- Wires are added behind those there are, each marked as implicit.
abbrev pub AddsImplicit : List Wire → List Wire → Type 0
AddsImplicit wires wires' =
    (added : List Wire) × (wires' ≡ wires ++ added) × All (λ x. x.implicit ≡ true) added

append_nil : (xs : List Wire) → xs ≡ xs ++ []
append_nil [] = refl
append_nil (x ∷ xs) = cc (append_nil xs)

append_assoc : (xs ys zs : List Wire) → (xs ++ ys) ++ zs ≡ xs ++ (ys ++ zs)
append_assoc [] ys zs = refl
append_assoc (x ∷ xs) ys zs = cc (append_assoc xs ys zs)

AddsImplicit-trans : (a b c : List Wire) → AddsImplicit a b → AddsImplicit b c → AddsImplicit a c
AddsImplicit-trans a b c (xs, at_b, all_b) (ys, at_c, all_c) = (
  xs ++ ys,
  cc (at_b, at_c, append_assoc a xs ys),
  All-append (λ x. x.implicit ≡ true) xs ys all_b all_c,
)

AddsImplicit-add_wire :
    (name result target : String) (wires : List Wire)
    → AddsImplicit wires (add_wire name result target wires)
unfolding add_wire
AddsImplicit-add_wire name result target wires =
    elim (Bool-cases (any (leaves name result) wires)) [
      | inl h ↦ ([], rw h (append_nil wires), tt)
      | inr h ↦ (implicit_wire name result target ∷ [], rw h refl, (refl, tt))
    ]

AddsImplicit-add_wires :
    (result target : String) (steps : Dict Step) (wires : List Wire)
    → AddsImplicit wires (add_wires result target steps wires)
unfolding add_wires
AddsImplicit-add_wires result target [] wires = ([], append_nil wires, tt)
AddsImplicit-add_wires result target ((k, step) ∷ steps) wires =
    AddsImplicit-trans wires (add_wire k result target wires)
      (add_wires result target steps (add_wire k result target wires))
      (AddsImplicit-add_wire k result target wires)
      (AddsImplicit-add_wires result target steps (add_wire k result target wires))

-- The fixups change no wire that was written: they put wires behind them, each marked as implicit.
pub fixups-AddsImplicit : (w : Workflow) → AddsImplicit w.wiring (fixups w).wiring
unfolding fixups with_token_limit with_result
fixups-AddsImplicit w =
    let w' = with_result "timeout" step_abort w in
    AddsImplicit-trans w.wiring w'.wiring (fixups w).wiring
      (AddsImplicit-add_wires "timeout" step_abort w.steps w.wiring)
      (AddsImplicit-add_wires "token-limit" (token_limit_target w') w'.steps w'.wiring)
