-- ===== src/Evolution/Fitness/Front.antt =====
-- ComputeParetoFront: exactly the candidates that none dominates, which dominate all the others.
use Prim.Native.Nat.{◌≤◌, ◌<◌}
use mathlib.Core.List.{append_assoc}
use cloche.Base.{
  ℕ, zero, suc, ◌+◌, ◌≡◌, ◌↔◌, refl, ap, sym, ◌∙◌, inl, inr, Bool, true, false, List, [], ◌∷◌, ◌++◌,
  if◌then◌else◌, any, any-append, Any, arith, Bool-cases,
}
use cloche.Evolution.Fitness.{
  FloatOrder, CandidateFitness, dominates, is_dominated, front_from, compute_pareto_front,
}

module _ {F : Type 0} (o : FloatOrder F) where
  abbrev C : Type 0
  C = CandidateFitness F

  dominates_irrefl : (c : C) → dominates o c c ≡ false
  unfolding dominates
  dominates_irrefl c = ground (arith, o.gt_irrefl c.success_rate, o.gt_irrefl c.efficiency)

  dominates_trans :
      (a b c : C) → dominates o a b ≡ true → dominates o b c ≡ true → dominates o a c ≡ true
  unfolding dominates
  dominates_trans a b c h k = ground (
    arith,
    o.ge_trans a.success_rate b.success_rate c.success_rate,
    o.ge_trans a.efficiency b.efficiency c.efficiency,
    o.gt-ge a.success_rate b.success_rate c.success_rate,
    o.gt-ge a.efficiency b.efficiency c.efficiency,
  )

  abbrev is_beaten : List C → C → Bool
  is_beaten cs c = any (λ d. dominates o d c) cs

  is_dominated-any :
      (before after : List C) (c : C)
      → is_dominated o before c after ≡ is_beaten (before ++ c ∷ after) c
  unfolding is_dominated any
  is_dominated-any before after c =
      ground (arith, any-append (λ d. dominates o d c) before (c ∷ after), dominates_irrefl c)

  abbrev IsIn : C → List C → Type 0
  IsIn c cs = Any (λ x. x ≡ c) cs

  -- The loop keeps those that are not beaten by any candidate of the whole list.
  front_from_iff :
      (before after : List C) (c : C)
      → IsIn c (front_from o before after) ↔ IsIn c after × (is_beaten (before ++ after) c ≡ false)
  unfolding front_from
  front_from_iff before [] c = (λ h. absurd h, λ h. absurd h.0)
  front_from_iff before (x ∷ after) c =
      let whole = before ++ x ∷ after in
      let same = ap (λ (l : List C). is_beaten l c) (append_assoc before (x ∷ []) after) in
      let rest = front_from_iff (before ++ x ∷ []) after c in
      let test = is_dominated-any before after x in
      elim (Bool-cases (is_dominated o before x after)) [
        | inl beaten ↦ rw beaten (
          λ h. let (k, free) = rest.0 h in (inr k, sym same ∙ free),
          λ (k, free). elim k [
            | inl e ↦ cc (ap (is_beaten whole) e, test, beaten, free)
            | inr k' ↦ rest.1 (k', same ∙ free)
          ],
        )
        | inr free_x ↦ rw free_x (
          λ h. elim h [
            | inl e ↦ (inl e, sym (ap (is_beaten whole) e) ∙ sym test ∙ free_x)
            | inr h' ↦ let (k, free) = rest.0 h' in (inr k, sym same ∙ free)
          ],
          λ (k, free). elim k [ inl e ↦ inl e | inr k' ↦ inr (rest.1 (k', same ∙ free)) ],
        )
      ]

  -- The candidates that dominate another one.
  abbrev beaters : C → List C → ℕ
  beaters c [] = 0
  beaters c (x ∷ xs) = (if dominates o x c then 1 else 0) + beaters c xs

  beaters-le : (d c : C) (xs : List C) → dominates o d c ≡ true → beaters d xs ≤ beaters c xs
  beaters-le d c [] h = omega arith
  beaters-le d c (x ∷ xs) h = ground (arith, dominates_trans x d c, beaters-le d c xs h)

  beaters-lt :
      (d c : C) (xs : List C) → dominates o d c ≡ true → IsIn d xs → beaters d xs < beaters c xs
  beaters-lt d c [] h k = absurd k
  beaters-lt d c (x ∷ xs) h (inl e) =
      let itself = ap (λ y. dominates o y d) e ∙ dominates_irrefl d in
      let over = ap (λ y. dominates o y c) e ∙ h in
      ground (arith, itself, over, beaters-le d c xs h)
  beaters-lt d c (x ∷ xs) h (inr k) = ground (arith, dominates_trans x d c, beaters-lt d c xs h k)

  beater_of :
      (c : C) (xs : List C) → is_beaten xs c ≡ true → (d : C) × IsIn d xs × (dominates o d c ≡ true)
  unfolding any
  beater_of c [] h = cc
  beater_of c (x ∷ xs) h = elim (Bool-cases (dominates o x c)) [
    | inl over ↦ (x, inl refl, over)
    | inr no_ ↦ let (d, k, over) = beater_of c xs (ground arith) in (d, inr k, over)
  ]

  beaten_by_front :
      (fuel : ℕ) (cs : List C) (c : C)
      → beaters c cs < fuel
      → is_beaten cs c ≡ true
      → (f : C) × IsIn f (compute_pareto_front o cs) × (dominates o f c ≡ true)
  unfolding compute_pareto_front
  beaten_by_front zero cs c small h = absurd (omega arith)
  beaten_by_front (suc fuel) cs c small h =
      let (d, k, over) = beater_of c cs h in
      elim (Bool-cases (is_beaten cs d)) [
        | inl beaten ↦
            let (f, k', over') =
              beaten_by_front fuel cs d (omega (arith, beaters-lt d c cs over k)) beaten in
            (f, k', dominates_trans f d c over' over)
        | inr free ↦ (d, (front_from_iff [] cs d).1 (k, free), over)
      ]

  -- A candidate is in the front exactly when it is one of the candidates and none of them dominates
  -- it; and each candidate that is dominated at all is dominated by one of the front. The
  -- comparisons of floating-point numbers are transitive, and no number is above itself.
  pub compute_pareto_front_lem :
      (cs : List (CandidateFitness F)) (c : CandidateFitness F)
      → (Any (λ x. x ≡ c) (compute_pareto_front o cs)
          ↔ Any (λ x. x ≡ c) cs × (any (λ d. dominates o d c) cs ≡ false))
        × (any (λ d. dominates o d c) cs ≡ true
            → (f : CandidateFitness F) × Any (λ x. x ≡ f) (compute_pareto_front o cs)
              × (dominates o f c ≡ true))
  unfolding compute_pareto_front
  compute_pareto_front_lem cs c =
      (front_from_iff [] cs c, λ h. beaten_by_front (suc (beaters c cs)) cs c (omega arith) h)
