-- ===== src/Base/Lists.antt =====
-- Lists measured by native numbers, quantifiers over lists, and searches by a Boolean test.
use Prim.Native.Nat.{ℕ, zero, suc, ◌+◌, ◌≤◌}
use mathlib.Core.Path.{◌≡◌, refl, ap}
use cloche.Base.Tests.{eqb, if◌then◌else◌}
use mathlib.Core.Logic.{◌↔◌, ◌⊎◌, inl, inr}
use mathlib.Core.Bool.{Bool, true, false, ◌&&◌, ◌||◌}
use mathlib.Core.List.{List, [], ◌∷◌, ◌++◌}
use mathlib.Core.Option.{Option, none, some}
use native.Mathlib.Omega.{arith}

module _ {ℓ} {A : Type ℓ} where
  abbrev pub length : List A → ℕ
  length [] = 0
  length (x ∷ xs) = suc (length xs)

  abbrev pub get_elem? : List A → ℕ → Option A
  get_elem? [] i = none
  get_elem? (x ∷ xs) zero = some x
  get_elem? (x ∷ xs) (suc i) = get_elem? xs i

  -- Every element, and some element, satisfies a predicate.
  abbrev pub All {κ} : (A → Type κ) → List A → Type κ
  All P [] = Unit
  All P (x ∷ xs) = P x × All P xs

  abbrev pub Any : (A → Type 0) → List A → Type 0
  Any P [] = ⊥
  Any P (x ∷ xs) = P x ⊎ Any P xs

  -- The loops that look for an element which passes a test.
  unfoldable pub any : (A → Bool) → List A → Bool
  any p [] = false
  any p (x ∷ xs) = p x || any p xs

  unfoldable pub all : (A → Bool) → List A → Bool
  all p [] = true
  all p (x ∷ xs) = p x && all p xs

  unfoldable pub keep_if : (A → Bool) → List A → List A
  keep_if p [] = []
  keep_if p (x ∷ xs) = let rest = keep_if p xs in (elim (p x) [ true ↦ x ∷ rest | false ↦ rest ])

  pub length-append : (xs ys : List A) → length (xs ++ ys) ≡ length xs + length ys
  length-append [] ys = omega arith
  length-append (x ∷ xs) ys = omega (arith, length-append xs ys)

module _ {ℓ} {A : Type ℓ} where
  pub any-append : (p : A → Bool) (xs ys : List A) → any p (xs ++ ys) ≡ (any p xs || any p ys)
  unfolding any
  any-append p [] ys = refl
  any-append p (x ∷ xs) ys = ground (arith, any-append p xs ys)

  -- A search finds something exactly when some element has what the test decides.
  pub any_iff :
      (p : A → Bool) (P : A → Type 0)
      → ((x : A) → (p x ≡ true) ↔ P x)
      → (xs : List A) → (any p xs ≡ true) ↔ Any P xs
  unfolding any
  any_iff p P dec [] = (λ h. cc, λ h. absurd h)
  any_iff p P dec (x ∷ xs) = ground (arith, dec x, any_iff p P dec xs)

  pub all_iff {κ} :
      (p : A → Bool) (P : A → Type κ)
      → ((x : A) → (p x ≡ true) ↔ P x)
      → (xs : List A) → (all p xs ≡ true) ↔ All P xs
  unfolding all
  all_iff p P dec [] = (λ h. tt, λ h. refl)
  all_iff p P dec (x ∷ xs) = ground (arith, dec x, all_iff p P dec xs)

  pub All-map {κ κ'} :
      {P : A → Type κ} {Q : A → Type κ'} (f : (x : A) → P x → Q x) (xs : List A)
      → All P xs
      → All Q xs
  All-map f [] h = tt
  All-map f (x ∷ xs) h = (f x h.0, All-map f xs h.1)

  pub Any-map : {P Q : A → Type 0} (f : (x : A) → P x → Q x) (xs : List A) → Any P xs → Any Q xs
  Any-map f [] h = h
  Any-map f (x ∷ xs) (inl h) = inl (f x h)
  Any-map f (x ∷ xs) (inr h) = inr (Any-map f xs h)

  -- What a search that fails, and one that succeeds, says of the elements.
  pub any-false : (p : A → Bool) (xs : List A) → any p xs ≡ false → All (λ x. p x ≡ false) xs
  unfolding any
  any-false p [] h = tt
  any-false p (x ∷ xs) h = ground (arith, any-false p xs)

  pub any-true : (p : A → Bool) (xs : List A) → any p xs ≡ true → Any (λ x. p x ≡ true) xs
  unfolding any
  any-true p [] h = cc
  any-true p (x ∷ xs) h = ground (arith, any-true p xs)

  pub All-zip {κ κ' κ''} :
      {P : A → Type κ} {Q : A → Type κ'} {R : A → Type κ''} (f : (x : A) → P x → Q x → R x)
      (xs : List A)
      → All P xs
      → All Q xs
      → All R xs
  All-zip f [] h k = tt
  All-zip f (x ∷ xs) h k = (f x h.0 k.0, All-zip f xs h.1 k.1)

  pub All-intro {κ} : {P : A → Type κ} (f : (x : A) → P x) (xs : List A) → All P xs
  All-intro f [] = tt
  All-intro f (x ∷ xs) = (f x, All-intro f xs)

  pub All-append {κ} : (P : A → Type κ) (xs ys : List A) → All P xs → All P ys → All P (xs ++ ys)
  All-append P [] ys h k = k
  All-append P (x ∷ xs) ys h k = (h.0, All-append P xs ys h.1 k)

  pub Any-append_left : (P : A → Type 0) (xs ys : List A) → Any P xs → Any P (xs ++ ys)
  Any-append_left P [] ys h = absurd h
  Any-append_left P (x ∷ xs) ys (inl h) = inl h
  Any-append_left P (x ∷ xs) ys (inr h) = inr (Any-append_left P xs ys h)

  pub Any-append_right : (P : A → Type 0) (xs ys : List A) → Any P ys → Any P (xs ++ ys)
  Any-append_right P [] ys h = h
  Any-append_right P (x ∷ xs) ys h = inr (Any-append_right P xs ys h)

module _ {ℓ} {A : Type ℓ} where
  -- A cell of a store is changed; outside the store nothing happens.
  unfoldable pub modify : ℕ → (A → A) → List A → List A
  modify i f [] = []
  modify zero f (x ∷ xs) = f x ∷ xs
  modify (suc i) f (x ∷ xs) = x ∷ modify i f xs

  pub length-modify : (i : ℕ) (f : A → A) (xs : List A) → length (modify i f xs) ≡ length xs
  unfolding modify
  length-modify i f [] = refl
  length-modify zero f (x ∷ xs) = refl
  length-modify (suc i) f (x ∷ xs) = omega (arith, length-modify i f xs)

  pub get_elem?-modify_other :
      (i j : ℕ) (f : A → A) (xs : List A)
      → (i ≡ j → ⊥)
      → get_elem? (modify i f xs) j ≡ get_elem? xs j
  unfolding modify
  get_elem?-modify_other i j f [] h = refl
  get_elem?-modify_other zero zero f (x ∷ xs) h = absurd (h refl)
  get_elem?-modify_other zero (suc j) f (x ∷ xs) h = refl
  get_elem?-modify_other (suc i) zero f (x ∷ xs) h = refl
  get_elem?-modify_other (suc i) (suc j) f (x ∷ xs) h =
      get_elem?-modify_other i j f xs (λ e. h (ap suc e))

  pub get_elem?-modify_same :
      (i : ℕ) (f : A → A) (xs : List A)
      → get_elem? (modify i f xs) i ≡ (elim (get_elem? xs i) [ none ↦ none | some x ↦ some (f x) ])
  unfolding modify
  get_elem?-modify_same i f [] = refl
  get_elem?-modify_same zero f (x ∷ xs) = refl
  get_elem?-modify_same (suc i) f (x ∷ xs) = get_elem?-modify_same i f xs

  pub get_elem?-append :
      (xs ys : List A) (i : ℕ) (x : A) → get_elem? xs i ≡ some x → get_elem? (xs ++ ys) i ≡ some x
  get_elem?-append [] ys i x h = cc
  get_elem?-append (y ∷ xs) ys zero x h = h
  get_elem?-append (y ∷ xs) ys (suc i) x h = get_elem?-append xs ys i x h

  pub get_elem?-lt : (xs : List A) (i : ℕ) (x : A) → get_elem? xs i ≡ some x → suc i ≤ length xs
  get_elem?-lt [] i x h = cc
  get_elem?-lt (y ∷ xs) zero x h = omega arith
  get_elem?-lt (y ∷ xs) (suc i) x h = omega (arith, get_elem?-lt xs i x h)

  pub get_elem?-length : (xs ys : List A) → get_elem? (xs ++ ys) (length xs) ≡ get_elem? ys 0
  get_elem?-length [] ys = refl
  get_elem?-length (x ∷ xs) ys = get_elem?-length xs ys

  -- A number read off a cell; 0 outside the store.
  abbrev pub measure_at : (A → ℕ) → ℕ → List A → ℕ
  measure_at g i [] = 0
  measure_at g zero (x ∷ xs) = g x
  measure_at g (suc i) (x ∷ xs) = measure_at g i xs

  pub All-measure_at :
      (g : A → ℕ) (n : ℕ) (xs : List A) → ((i : ℕ) → measure_at g i xs ≤ n) → All (λ x. g x ≤ n) xs
  All-measure_at g n [] h = tt
  All-measure_at g n (x ∷ xs) h = (h 0, All-measure_at g n xs (λ i. h (suc i)))

  pub measure_at-get :
      (g : A → ℕ) (i : ℕ) (xs : List A)
      → measure_at g i xs ≡ (elim (get_elem? xs i) [ none ↦ 0 | some x ↦ g x ])
  measure_at-get g i [] = refl
  measure_at-get g zero (x ∷ xs) = refl
  measure_at-get g (suc i) (x ∷ xs) = measure_at-get g i xs

  pub measure_at-append :
      (g : A → ℕ) (j : ℕ) (xs : List A) (x : A)
      → measure_at g j (xs ++ x ∷ []) ≡ measure_at g j xs + (if eqb j (length xs) then g x else 0)
  measure_at-append g zero [] x = omega arith
  measure_at-append g (suc j) [] x = ground arith
  measure_at-append g zero (y ∷ xs) x = ground arith
  measure_at-append g (suc j) (y ∷ xs) x = ground (arith, measure_at-append g j xs x)

  pub measure_at-modify :
      (g : A → ℕ) (d i j : ℕ) (f : A → A) (xs : List A)
      → ((x : A) → g (f x) ≤ g x + d)
      → measure_at g j (modify i f xs) ≤ measure_at g j xs + (if eqb i j then d else 0)
  unfolding modify
  measure_at-modify g d i j f [] h = omega arith
  measure_at-modify g d zero zero f (x ∷ xs) h = ground (arith, h x)
  measure_at-modify g d zero (suc j) f (x ∷ xs) h = ground arith
  measure_at-modify g d (suc i) zero f (x ∷ xs) h = ground arith
  measure_at-modify g d (suc i) (suc j) f (x ∷ xs) h =
      ground (arith, measure_at-modify g d i j f xs h)

  -- One element, and the list without it.
  unfoldable pub take_at : ℕ → List A → Option (A × List A)
  take_at i [] = none
  take_at zero (x ∷ xs) = some (x, xs)
  take_at (suc i) (x ∷ xs) = elim (take_at i xs) [ none ↦ none | some (y, ys) ↦ some (y, x ∷ ys) ]
