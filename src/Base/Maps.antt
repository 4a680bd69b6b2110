-- ===== src/Base/Maps.antt =====
-- Go's `map[string]V` as an association list. A loop over a map takes the entries in list order,
-- one of the orders that Go may choose.
use Prim.Native.String.{String}
use mathlib.Core.Path.{◌≡◌, refl}
use mathlib.Core.Bool.{Bool, true, false}
use mathlib.Core.Option.{Option, none, some}
use mathlib.Core.List.{List, [], ◌∷◌}
use native.Mathlib.Omega.{arith}
use text.Mathlib.Text.{◌==◌}
use text.Mathlib.TextEquality.{eq_iff}
use mathlib.Core.Logic.{inl, inr}
use Prim.Native.Nat.{ℕ, ◌+◌, ◌≤◌}
use cloche.Base.Tests.{if◌then◌else◌, Bool-cases, eqb}
use cloche.Base.Lists.{Any}

abbrev pub Dict {ℓ} : Type ℓ → Type ℓ
Dict V = List (String × V)

module _ {ℓ} {V : Type ℓ} where
  -- `v, ok := m[k]`
  unfoldable pub lookup : String → Dict V → Option V
  lookup k [] = none
  lookup k ((j, v) ∷ m) = if j == k then some v else lookup k m

  unfoldable pub has : String → Dict V → Bool
  has k [] = false
  has k ((j, v) ∷ m) = if j == k then true else has k m

  -- `m[k] = v`
  unfoldable pub insert : String → V → Dict V → Dict V
  insert key value [] = (key, value) ∷ []
  insert key value ((old, w) ∷ rest) =
      if old == key then (key, value) ∷ rest else (old, w) ∷ insert key value rest

  pub lookup-insert :
      (key asked : String) (value : V) (dict : Dict V)
      → lookup asked (insert key value dict)
        ≡ (if key == asked then some value else lookup asked dict)
  unfolding insert lookup
  lookup-insert key asked value [] = refl
  lookup-insert key asked value ((old, w) ∷ rest) =
      let further = lookup-insert key asked value rest in
      ground (arith, eq_iff old key, eq_iff old asked, eq_iff key asked, further)

  pub lookup_of_key :
      (k : String) (m : Dict V) → Any (λ e. e.0 ≡ k) m → (v : V) × (lookup k m ≡ some v)
  unfolding lookup
  lookup_of_key k [] h = absurd h
  lookup_of_key k ((j, v) ∷ m) (inl same) = (v, ground (arith, eq_iff j k))
  lookup_of_key k ((j, v) ∷ m) (inr h) =
      let (u, found) = lookup_of_key k m h in
      elim (Bool-cases (j == k)) [ inl e ↦ (v, rw e) | inr e ↦ (u, rw e found) ]

  -- `delete(m, k)`
  unfoldable pub delete : String → Dict V → Dict V
  delete k [] = []
  delete k ((j, v) ∷ m) = let rest = delete k m in if j == k then rest else (j, v) ∷ rest

  pub lookup-delete :
      (key asked : String) (dict : Dict V)
      → lookup asked (delete key dict) ≡ (if key == asked then none else lookup asked dict)
  unfolding delete lookup
  lookup-delete key asked [] = ground arith
  lookup-delete key asked ((old, w) ∷ rest) =
      let further = lookup-delete key asked rest in
      ground (arith, eq_iff old key, eq_iff old asked, eq_iff key asked, further)

-- How many keys lead to an address.
abbrev pub keys_to : ℕ → Dict ℕ → ℕ
keys_to a [] = 0
keys_to a ((k, b) ∷ m) = (if eqb b a then 1 else 0) + keys_to a m

pub keys_to-insert :
    (a b : ℕ) (k : String) (m : Dict ℕ)
    → keys_to a (insert k b m) ≤ keys_to a m + (if eqb b a then 1 else 0)
unfolding insert
keys_to-insert a b k [] = omega arith
keys_to-insert a b k ((j, x) ∷ m) = ground (arith, keys_to-insert a b k m)

pub keys_to-delete : (a : ℕ) (k : String) (m : Dict ℕ) → keys_to a (delete k m) ≤ keys_to a m
unfolding delete
keys_to-delete a k [] = omega arith
keys_to-delete a k ((j, x) ∷ m) = ground (arith, keys_to-delete a k m)

pub keys_to-delete_found :
    (a b : ℕ) (k : String) (m : Dict ℕ)
    → lookup k m ≡ some b
    → keys_to a (delete k m) + (if eqb b a then 1 else 0) ≤ keys_to a m
unfolding delete lookup
keys_to-delete_found a b k [] h = cc
keys_to-delete_found a b k ((j, x) ∷ m) h =
    ground (arith, keys_to-delete a k m, keys_to-delete_found a b k m)

pub keys_to-lookup : (key : String) (a : ℕ) (m : Dict ℕ) → lookup key m ≡ some a → 1 ≤ keys_to a m
unfolding lookup
keys_to-lookup key a [] h = cc
keys_to-lookup key a ((k, b) ∷ m) h = ground (arith, keys_to-lookup key a m)
