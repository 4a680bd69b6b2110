-- ===== src/Base/Text.antt =====
-- Go's strings.Split and strings.Join at one character.
use Prim.Native.Nat.{ℕ}
use Prim.Native.Char.{Char, code}
use Prim.Native.String
use Prim.Native.String.{String}
use Prim.Native.String.append.{nil, cons}
use mathlib.Core.Path.{◌≡◌, refl}
use mathlib.Core.Bool.{Bool, false, ◌||◌}
use mathlib.Core.List.{List, [], ◌∷◌}
use native.Mathlib.Omega.{arith}
use cloche.Base.Tests.{eqb, if◌then◌else◌}
use cloche.Base.Lists.{All}

abbrev pub is_code : ℕ → Char → Bool
is_code n c = eqb (code c) n

unfoldable pub contains_code : ℕ → String → Bool
contains_code n String.[] = false
contains_code n (String.◌∷◌ c s) = is_code n c || contains_code n s

abbrev pub push_head : Char → List String → List String
push_head c [] = String.◌∷◌ c String.[] ∷ []
push_head c (p ∷ ps) = String.◌∷◌ c p ∷ ps

-- `strings.Split(s, sep)`
unfoldable pub split : ℕ → String → List String
split n String.[] = String.[] ∷ []
split n (String.◌∷◌ c s) =
    let parts = split n s in if is_code n c then String.[] ∷ parts else push_head c parts

-- `strings.Join(parts, sep)`
unfoldable pub join : Char → List String → String
join sep [] = String.[]
join sep (p ∷ []) = p
join sep (p ∷ q ∷ ps) = String.◌++◌ p (String.◌∷◌ sep (join sep (q ∷ ps)))

pub append_nil : (t : String) → String.◌++◌ String.[] t ≡ t
append_nil t = λ i. nil t i

pub append_cons :
    (c : Char) (s t : String) → String.◌++◌ (String.◌∷◌ c s) t ≡ String.◌∷◌ c (String.◌++◌ s t)
append_cons c s t = λ i. cons c s t i

split-append :
    (sep : Char) (p s : String)
    → contains_code (code sep) p ≡ false
    → split (code sep) (String.◌++◌ p (String.◌∷◌ sep s)) ≡ p ∷ split (code sep) s
unfolding split contains_code
split-append sep String.[] s h = rw (append_nil (String.◌∷◌ sep s)) (ground arith)
split-append sep (String.◌∷◌ c p) s h =
    rw (append_cons c p (String.◌∷◌ sep s)) (ground (arith, split-append sep p s))

split_alone : (n : ℕ) (p : String) → contains_code n p ≡ false → split n p ≡ p ∷ []
unfolding split contains_code
split_alone n String.[] h = refl
split_alone n (String.◌∷◌ c p) h = ground (arith, split_alone n p)

-- Parts without the separator come back.
pub split-join :
    (sep : Char) (p : String) (ps : List String)
    → All (λ s. contains_code (code sep) s ≡ false) (p ∷ ps)
    → split (code sep) (join sep (p ∷ ps)) ≡ p ∷ ps
unfolding join
split-join sep p [] (h, _) = split_alone (code sep) p h
split-join sep p (q ∷ ps) (h, k) =
    cc (split-append sep p (join sep (q ∷ ps)) h, split-join sep q ps k)

pub join-nonempty :
    (sep : Char) (p : String) (ps : List String)
    → (p ≡ String.[] → ⊥)
    → join sep (p ∷ ps) ≡ String.[]
    → ⊥
unfolding join
join-nonempty sep p [] h same = h same
join-nonempty sep String.[] (q ∷ ps) h same = h refl
join-nonempty sep (String.◌∷◌ c p) (q ∷ ps) h same =
    cc (append_cons c p (String.◌∷◌ sep (join sep (q ∷ ps))), same)
