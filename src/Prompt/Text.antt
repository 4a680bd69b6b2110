-- ===== src/Prompt/Text.antt =====
-- What internal/adapters/agents/prompt/template.go uses of Go's strings package. A text is the list
-- of its code points.
use Prim.Native.Nat.{◌≤◌, ◌<◌}
use cloche.Base.{
  ℕ, zero, suc, ◌+◌, ◌-◌, ◌≡◌, Bool, true, false, ◌&&◌, ◌||◌, Option, none, some, List, [], ◌∷◌,
  ◌++◌, if◌then◌else◌, eqb, leb, length, arith, Option-cases, inl, inr, refl, ap,
}
use Prim.Native.Char.{code}
use Prim.Native.String.{String}

abbrev pub Text : Type 0
Text = List ℕ

-- The text of a literal.
abbrev pub codes : String → Text
codes String.[] = []
codes (String.◌∷◌ c s) = code c ∷ codes s

-- `unicode.IsSpace`
unfoldable pub is_space : ℕ → Bool
is_space c =
    leb 0x09 c && leb c 0x0d
    || eqb c 0x20
    || eqb c 0x85
    || eqb c 0xa0
    || eqb c 0x1680
    || leb 0x2000 c && leb c 0x200a
    || eqb c 0x2028
    || eqb c 0x2029
    || eqb c 0x202f
    || eqb c 0x205f
    || eqb c 0x3000

unfoldable pub trim_start : (ℕ → Bool) → Text → Text
trim_start p [] = []
trim_start p (c ∷ s) = let rest = trim_start p s in if p c then rest else c ∷ s

trim_cons : (ℕ → Bool) → ℕ → Text → Text
trim_cons p c [] = if p c then [] else c ∷ []
trim_cons p c (d ∷ s) = c ∷ d ∷ s

-- `strings.TrimRight` by a set of characters
unfoldable pub trim_end : (ℕ → Bool) → Text → Text
unfolding trim_cons
trim_end p [] = []
trim_end p (c ∷ s) = trim_cons p c (trim_end p s)

-- `strings.TrimSpace`
unfoldable pub trim_space : Text → Text
unfolding is_space trim_start trim_end
trim_space s = trim_end is_space (trim_start is_space s)

-- What follows a prefix, if the text has it.
unfoldable pub strip_prefix : Text → Text → Option Text
strip_prefix [] s = some s
strip_prefix (c ∷ p) [] = none
strip_prefix (c ∷ p) (d ∷ s) = let rest = strip_prefix p s in if eqb c d then rest else none

unfoldable pub later : ℕ → Option (Text × Text) → Option (Text × Text)
later c none = none
later c (some (before, rest)) = some (c ∷ before, rest)

-- The text before the first occurrence of a pattern, and the text behind it.
unfoldable pub cut : Text → Text → Option (Text × Text)
unfolding strip_prefix later
cut p [] = elim (strip_prefix p []) [ none ↦ none | some rest ↦ some ([], rest) ]
cut p (c ∷ s) = elim (strip_prefix p (c ∷ s)) [
  | some rest ↦ some ([], rest)
  | none ↦ later c (cut p s)
]

is_found : Option (Text × Text) → Bool
is_found none = false
is_found (some pair) = true

-- `strings.Contains`
unfoldable pub contains : Text → Text → Bool
unfolding cut is_found
contains p s = is_found (cut p s)

-- `==`
unfoldable pub text_eq : Text → Text → Bool
text_eq [] [] = true
text_eq (c ∷ s) (d ∷ t) = eqb c d && text_eq s t
text_eq _ _ = false

-- `strings.HasSuffix`
unfoldable pub has_suffix : Text → Text → Bool
unfolding text_eq
has_suffix suffix [] = text_eq [] suffix
has_suffix suffix (c ∷ s) = text_eq (c ∷ s) suffix || has_suffix suffix s

-- `strings.Join`
unfoldable pub join_texts : Text → List Text → Text
join_texts sep [] = []
join_texts sep (t ∷ []) = t
join_texts sep (t ∷ u ∷ ts) = t ++ (sep ++ join_texts sep (u ∷ ts))

-- `strings.ReplaceAll` for a pattern with a character; so many characters belong to a match
unfoldable pub replace_from : Text → Text → ℕ → Text → Text
unfolding strip_prefix
replace_from p by k [] = []
replace_from p by (suc k) (c ∷ s) = replace_from p by k s
replace_from p by zero (c ∷ s) = elim (strip_prefix p (c ∷ s)) [
  | none ↦ c ∷ replace_from p by zero s
  | some rest ↦ by ++ replace_from p by (length p - 1) s
]

unfoldable pub replace_all : Text → Text → Text → Text
unfolding replace_from
replace_all p by s = replace_from p by 0 s

length-trim_start : (p : ℕ → Bool) (s : Text) → length (trim_start p s) ≤ length s
unfolding trim_start
length-trim_start p [] = omega arith
length-trim_start p (c ∷ s) = ground (arith, length-trim_start p s)

length-trim_cons : (p : ℕ → Bool) (c : ℕ) (s : Text) → length (trim_cons p c s) ≤ suc (length s)
unfolding trim_cons
length-trim_cons p c [] = ground arith
length-trim_cons p c (d ∷ s) = omega arith

length-trim_end : (p : ℕ → Bool) (s : Text) → length (trim_end p s) ≤ length s
unfolding trim_end
length-trim_end p [] = omega arith
length-trim_end p (c ∷ s) = omega (arith, length-trim_cons p c (trim_end p s), length-trim_end p s)

pub length-trim_space : (s : Text) → length (trim_space s) ≤ length s
unfolding trim_space
length-trim_space s =
    omega (arith, length-trim_end is_space (trim_start is_space s), length-trim_start is_space s)

pub length-strip_prefix :
    (p s rest : Text) → strip_prefix p s ≡ some rest → length rest + length p ≤ length s
unfolding strip_prefix
length-strip_prefix [] s rest h = ground arith
length-strip_prefix (c ∷ p) [] rest h = cc
length-strip_prefix (c ∷ p) (d ∷ s) rest h = ground (arith, length-strip_prefix p s rest)

length-later :
    (c n : ℕ) (found : Option (Text × Text)) (before rest : Text)
    → ((b t : Text) → found ≡ some (b, t) → length b + length t < n)
    → later c found ≡ some (before, rest)
    → length before + length rest < suc n
unfolding later
length-later c n none before rest shorter h = cc
length-later c n (some (b, t)) before rest shorter h = ground (arith, shorter b t refl)

pub length-cut :
    (p s before rest : Text)
    → 1 ≤ length p
    → cut p s ≡ some (before, rest)
    → length before + length rest < length s
unfolding cut
length-cut p [] before rest long h = ground (arith, length-strip_prefix p [] rest)
length-cut p (c ∷ s) before rest long h = elim (Option-cases (strip_prefix p (c ∷ s))) [
  | inl absent ↦
      length-later c (length s) (cut p s) before rest (λ b t e. length-cut p s b t long e)
        (rw (absent, cut) at h)
  | inr (t, found) ↦
      let same : ◌≡◌ {A = Option (Text × Text)} (some ([], t)) (some (before, rest)) =
        rw (found, cut) at h in
      ground (arith, length-strip_prefix p (c ∷ s) t found)
]

some-ne-none : (x : Text × Text) → ◌≡◌ {A = Option (Text × Text)} (some x) none → ⊥
some-ne-none x h = cc

later-none : (c : ℕ) (found : Option (Text × Text)) → later c found ≡ none → found ≡ none
unfolding later
later-none c none h = refl
later-none c (some (b, t)) h = cc

cut-none :
    (p : Text) (c : ℕ) (s : Text)
    → cut p (c ∷ s) ≡ none
    → (strip_prefix p (c ∷ s) ≡ none) × (cut p s ≡ none)
unfolding cut
cut-none p c s h = elim (Option-cases (strip_prefix p (c ∷ s))) [
  | inl absent ↦ (absent, later-none c (cut p s) (rw (absent, cut) at h))
  | inr (t, found) ↦ absurd (some-ne-none ([], t) (rw (found, cut) at h))
]

replace_from-absent : (p by s : Text) → cut p s ≡ none → replace_from p by 0 s ≡ s
unfolding replace_from
replace_from-absent p by [] h = refl
replace_from-absent p by (c ∷ s) h =
    let (absent, rest) = cut-none p c s h in
    rw (absent, replace_from) (ap (λ x. c ∷ x) (replace_from-absent p by s rest))

is_found-false : (found : Option (Text × Text)) → is_found found ≡ false → found ≡ none
unfolding is_found
is_found-false none h = refl
is_found-false (some pair) h = cc

-- Where a pattern does not occur, nothing is replaced.
pub replace_all-absent : (p by s : Text) → contains p s ≡ false → replace_all p by s ≡ s
unfolding replace_all contains
replace_all-absent p by s h = replace_from-absent p by s (is_found-false (cut p s) h)
