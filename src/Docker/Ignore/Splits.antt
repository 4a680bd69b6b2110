-- ===== src/Docker/Ignore/Splits.antt =====
-- internal/adapters/docker/ignore.go: the splits of a path that a pattern with one "**" stands for.
use cloche.Base.{
  Bool, true, false, ◌&&◌, ◌≡◌, ◌↔◌, refl, sym, ap, ◌∙◌, inl, inr, none, some, List, [], ◌∷◌, ◌++◌,
  arith, Bool-cases, Option-cases,
}
use mathlib.Core.Path.{fun_ext}
use mathlib.Core.List.{append_assoc}
use cloche.Docker.Ignore.{
  Bytes, is_empty, trim_suffix, trim_prefix, cut_doublestar, components, join, any_suffix,
  any_prefix, any_split, match_doublestar, match_glob,
}
use cloche.Docker.Ignore.Doublestar.{match_glob_lem}

-- The path is cut between two components, or before the first one, or behind the last one.
abbrev pub CutBefore : (Bytes → Bool) → List Bytes → Type 0
CutBefore test ps =
    (front : List Bytes) × (q : Bytes) × (back : List Bytes) × (ps ≡ front ++ q ∷ back)
    × (test (join (q ∷ back)) ≡ true)

abbrev pub CutBehind : (Bytes → Bool) → List Bytes → List Bytes → Type 0
CutBehind test left ps =
    (p : Bytes) × (front : List Bytes) × (back : List Bytes) × (ps ≡ p ∷ front ++ back)
    × (test (join (left ++ p ∷ front)) ≡ true)

abbrev pub CutBetween : (Bytes → Bool) → (Bytes → Bool) → List Bytes → List Bytes → Type 0
CutBetween before behind left ps =
    (p : Bytes) × (front : List Bytes) × (q : Bytes) × (back : List Bytes) × (ps
      ≡ p ∷ front ++ q ∷ back)
    × (before (join (left ++ p ∷ front)) ≡ true)
    × (behind (join (q ∷ back)) ≡ true)

any_suffix-to :
    (test : Bytes → Bool) (ps : List Bytes) → any_suffix test ps ≡ true → CutBefore test ps
unfolding any_suffix
any_suffix-to test [] h = cc
any_suffix-to test (p ∷ ps) h = elim (Bool-cases (test (join (p ∷ ps)))) [
  | inl here ↦ ([], p, ps, refl, here)
  | inr not_here ↦
      let (front, q, back, e, k) = any_suffix-to test ps (ground (arith, h, not_here)) in
      (p ∷ front, q, back, ap (λ x. p ∷ x) e, k)
]

any_suffix-from :
    (test : Bytes → Bool) (front : List Bytes) (q : Bytes) (back : List Bytes)
    → test (join (q ∷ back)) ≡ true
    → any_suffix test (front ++ q ∷ back) ≡ true
unfolding any_suffix
any_suffix-from test [] q back h = rw h refl
any_suffix-from test (p ∷ front) q back h = ground (arith, any_suffix-from test front q back h)

any_prefix-to :
    (test : Bytes → Bool) (left ps : List Bytes)
    → any_prefix test left ps ≡ true
    → CutBehind test left ps
unfolding any_prefix
any_prefix-to test left [] h = cc
any_prefix-to test left (p ∷ ps) h = elim (Bool-cases (test (join (left ++ p ∷ [])))) [
  | inl here ↦ (p, [], ps, refl, here)
  | inr not_here ↦
      let (q, front, back, e, k) =
        any_prefix-to test (left ++ p ∷ []) ps (ground (arith, h, not_here)) in
      (
        p,
        q ∷ front,
        back,
        ap (λ x. p ∷ x) e,
        ap (λ x. test (join x)) (sym (append_assoc left (p ∷ []) (q ∷ front))) ∙ k,
      )
]

any_prefix-from :
    (test : Bytes → Bool) (left : List Bytes) (p : Bytes) (front back : List Bytes)
    → test (join (left ++ p ∷ front)) ≡ true
    → any_prefix test left (p ∷ front ++ back) ≡ true
unfolding any_prefix
any_prefix-from test left p [] back h = rw h refl
any_prefix-from test left p (q ∷ front) back h = ground (
  arith,
  any_prefix-from test (left ++ p ∷ []) q front back
      (ap (λ x. test (join x)) (append_assoc left (p ∷ []) (q ∷ front)) ∙ h),
)

any_split-to :
    (before behind : Bytes → Bool) (left ps : List Bytes)
    → any_split before behind left ps ≡ true
    → CutBetween before behind left ps
unfolding any_split
any_split-to before behind left [] h = cc
any_split-to before behind left (p ∷ []) h = cc
any_split-to before behind left (p ∷ q ∷ ps) h =
    elim (Bool-cases (before (join (left ++ p ∷ [])) && behind (join (q ∷ ps)))) [
      | inl here ↦ (p, [], q, ps, refl, ground (arith, here), ground (arith, here))
      | inr not_here ↦
          let (r, front, s, back, e, k, k') =
            any_split-to before behind (left ++ p ∷ []) (q ∷ ps) (ground (arith, h, not_here)) in
          (
            p,
            r ∷ front,
            s,
            back,
            ap (λ x. p ∷ x) e,
            ap (λ x. before (join x)) (sym (append_assoc left (p ∷ []) (r ∷ front))) ∙ k,
            k',
          )
    ]

any_split-from :
    (before behind : Bytes → Bool) (left : List Bytes) (p : Bytes) (front : List Bytes) (q : Bytes)
    (back : List Bytes)
    → before (join (left ++ p ∷ front)) ≡ true
    → behind (join (q ∷ back)) ≡ true
    → any_split before behind left (p ∷ front ++ q ∷ back) ≡ true
unfolding any_split
any_split-from before behind left p [] q back h k = rw (h, k) refl
any_split-from before behind left p (r ∷ front) q back h k = ground (
  arith,
  any_split-from before behind (left ++ p ∷ []) r front q back
      (ap (λ x. before (join x)) (append_assoc left (p ∷ []) (r ∷ front)) ∙ h) k,
)

abbrev pub doublestar : Bytes
doublestar = b'*' ∷ b'*' ∷ []

cut_doublestar-append :
    (p q : Bytes)
    → cut_doublestar p ≡ none
    → cut_doublestar (p ++ (b'/' ∷ b'*' ∷ b'*' ∷ q)) ≡ some (p ++ b'/' ∷ [], q)
unfolding cut_doublestar
cut_doublestar-append [] q h = refl
cut_doublestar-append (c ∷ []) q h = ground (arith, cut_doublestar-append [] q refl)
cut_doublestar-append (c ∷ d ∷ p) q h = elim (Option-cases (cut_doublestar (d ∷ p))) [
  | inl e ↦ ground (arith, h, e, cut_doublestar-append (d ∷ p) q e)
  | inr (x, e) ↦ absurd (ground (arith, h, e))
]

trim_suffix-append : (p : Bytes) → trim_suffix (p ++ b'/' ∷ []) ≡ p
unfolding trim_suffix
trim_suffix-append [] = refl
trim_suffix-append (c ∷ []) = refl
trim_suffix-append (c ∷ d ∷ p) = ap (λ x. c ∷ x) (trim_suffix-append (d ∷ p))

trim_prefix-slash : (q : Bytes) → trim_prefix (b'/' ∷ q) ≡ q
unfolding trim_prefix
trim_prefix-slash q = refl

module _ (match : Bytes → Bytes → Bool) where
  match_glob_plain : (p : Bytes) → cut_doublestar p ≡ none → match_glob match p ≡ match p
  match_glob_plain p plain = fun_ext λ n. match_glob_lem match p n ∙ rw plain refl

  glob_before :
      (q name : Bytes)
      → is_empty q ≡ false
      → cut_doublestar q ≡ none
      → match_glob match (doublestar ++ b'/' ∷ q) name ≡ any_suffix (match q) (components name)
  unfolding cut_doublestar match_doublestar trim_suffix trim_prefix
  glob_before q name some_ plain =
      match_glob_lem match (doublestar ++ b'/' ∷ q) name
      ∙ rw some_ (ap (λ t. any_suffix t (components name)) (match_glob_plain q plain))

  doublestar_behind :
      (test : Bytes → Bytes → Bool) (p name : Bytes)
      → is_empty p ≡ false
      → match_doublestar test (p ++ b'/' ∷ []) [] name ≡ any_prefix (test p) [] (components name)
  unfolding match_doublestar trim_prefix
  doublestar_behind test p name some_ = rw (trim_suffix-append p, some_) refl

  doublestar_between :
      (test : Bytes → Bytes → Bool) (p q name : Bytes)
      → is_empty p ≡ false
      → is_empty q ≡ false
      → match_doublestar test (p ++ b'/' ∷ []) (b'/' ∷ q) name
        ≡ any_split (test p) (test q) [] (components name)
  unfolding match_doublestar
  doublestar_between test p q name some_ some' =
      rw (trim_suffix-append p, trim_prefix-slash q, some_, some') refl

  glob_behind :
      (p name : Bytes)
      → is_empty p ≡ false
      → cut_doublestar p ≡ none
      → match_glob match (p ++ b'/' ∷ doublestar) name ≡ any_prefix (match p) [] (components name)
  glob_behind p name some_ plain =
      match_glob_lem match (p ++ b'/' ∷ doublestar) name
      ∙ rw (cut_doublestar-append p [] plain) (doublestar_behind (match_glob match) p name some_)
      ∙ ap (λ t. any_prefix t [] (components name)) (match_glob_plain p plain)

  glob_between :
      (p q name : Bytes)
      → is_empty p ≡ false
      → is_empty q ≡ false
      → cut_doublestar p ≡ none
      → cut_doublestar q ≡ none
      → match_glob match (p ++ (b'/' ∷ doublestar ++ b'/' ∷ q)) name
        ≡ any_split (match p) (match q) [] (components name)
  glob_between p q name some_ some' plain plain' =
      match_glob_lem match (p ++ (b'/' ∷ doublestar ++ b'/' ∷ q)) name
      ∙ rw (cut_doublestar-append p (b'/' ∷ q) plain)
          (doublestar_between (match_glob match) p q name some_ some')
      ∙ ap (λ t. any_split t (match_glob match q) [] (components name)) (match_glob_plain p plain)
      ∙ ap (λ t. any_split (match p) t [] (components name)) (match_glob_plain q plain')

  -- Let p and q be patterns that are not empty and have no "**". Then the pattern **/q matches a
  -- path exactly when q matches some of its last components, at least one, joined by slashes; p/**
  -- matches it exactly when p matches some of its first components, at least one; and p/**/q matches
  -- it exactly when the path can be cut between two of its components so that p matches what stands
  -- before the cut and q what stands behind it. The pattern ** matches every path.
  pub match_glob_iff :
      (p q name : Bytes)
      → is_empty p ≡ false
      → is_empty q ≡ false
      → cut_doublestar p ≡ none
      → cut_doublestar q ≡ none
      → ((match_glob match (doublestar ++ b'/' ∷ q) name ≡ true)
          ↔ CutBefore (match q) (components name))
        × ((match_glob match (p ++ b'/' ∷ doublestar) name ≡ true)
            ↔ CutBehind (match p) [] (components name))
        × ((match_glob match (p ++ (b'/' ∷ doublestar ++ b'/' ∷ q)) name ≡ true)
            ↔ CutBetween (match p) (match q) [] (components name))
        × (match_glob match doublestar name ≡ true)
  unfolding match_doublestar cut_doublestar trim_suffix trim_prefix
  match_glob_iff p q name some_ some' plain plain' = (
    (
      λ h. any_suffix-to (match q) (components name) (sym (glob_before q name some' plain') ∙ h),
      λ (front, x, back, e, h).
          glob_before q name some' plain'
          ∙ ap (any_suffix (match q)) e
          ∙ any_suffix-from (match q) front x back h,
    ),
    (
      λ h. any_prefix-to (match p) [] (components name) (sym (glob_behind p name some_ plain) ∙ h),
      λ (x, front, back, e, h).
          glob_behind p name some_ plain
          ∙ ap (any_prefix (match p) []) e
          ∙ any_prefix-from (match p) [] x front back h,
    ),
    (
      λ h.
          any_split-to (match p) (match q) [] (components name)
            (sym (glob_between p q name some_ some' plain plain') ∙ h),
      λ (x, front, y, back, e, h, k).
          glob_between p q name some_ some' plain plain'
          ∙ ap (any_split (match p) (match q) []) e
          ∙ any_split-from (match p) (match q) [] x front y back h k,
    ),
    match_glob_lem match doublestar name,
  )
