-- ===== src/Docker/Ignore/Rules.antt =====
-- internal/adapters/docker/ignore.go: which rule decides about a path, and what a line's rule is.
use cloche.Base.{
  Bool, true, false, not, ◌||◌, ◌≡◌, ◌↔◌, ◌⊎◌, refl, ap, ◌∙◌, inl, inr, some, List, [], ◌∷◌, ◌++◌,
  if◌then◌else◌, any, All, arith, Bool-cases, Option-cases,
}
use cloche.Docker.Ignore.{
  Bytes, IgnorePattern, is_empty, starts_with, rest_of, trim_right, is_blank, is_slash, rule,
  parse_line, parse_clocheignore, applies, ignored_by, is_ignored,
}

-- A rule that is not negated applies to the path, and no later rule that applies is negated.
abbrev pub Decides : (IgnorePattern → Bool) → List IgnorePattern → Type 0
Decides applies patterns =
    (before : List IgnorePattern) × (p : IgnorePattern) × (behind : List IgnorePattern) × (patterns
      ≡ before ++ p ∷ behind)
    × (applies p ≡ true)
    × (p.negated ≡ false)
    × All (λ q. applies q ≡ false) behind

module _ (match : Bytes → Bytes → Bool) (base : Bytes → Bytes) (rel_path : Bytes)
    (is_dir : Bool) where
  ignored_by-Decides :
      (ignored : Bool) (patterns : List IgnorePattern)
      → ignored_by match base rel_path is_dir ignored patterns ≡ true
      → ((ignored ≡ true) × All (λ q. applies match base rel_path is_dir q ≡ false) patterns)
        ⊎ Decides (applies match base rel_path is_dir) patterns
  unfolding ignored_by
  ignored_by-Decides ignored [] h = inl (h, tt)
  ignored_by-Decides ignored (p ∷ patterns) h =
      elim (ignored_by-Decides
        (if applies match base rel_path is_dir p then not p.negated else ignored) patterns h) [
          | inr (before, q, behind, e, on, kept, off) ↦
              inr (p ∷ before, q, behind, ap (λ qs. p ∷ qs) e, on, kept, off)
          | inl (was, off) ↦ elim (Bool-cases (applies match base rel_path is_dir p)) [
            | inl on ↦ inr ([], p, patterns, refl, on, ground (arith, was, on), off)
            | inr not_on ↦ inl (ground (arith, was, not_on), (not_on, off))
          ]
        ]

  ignored_by_kept :
      (ignored : Bool) (patterns : List IgnorePattern)
      → All (λ q. applies match base rel_path is_dir q ≡ false) patterns
      → ignored_by match base rel_path is_dir ignored patterns ≡ ignored
  unfolding ignored_by
  ignored_by_kept ignored [] off = refl
  ignored_by_kept ignored (p ∷ patterns) (here, off) =
      rw here (ignored_by_kept ignored patterns off)

  ignored_by-append :
      (ignored : Bool) (before : List IgnorePattern) (p : IgnorePattern)
      (behind : List IgnorePattern)
      → applies match base rel_path is_dir p ≡ true
      → p.negated ≡ false
      → All (λ q. applies match base rel_path is_dir q ≡ false) behind
      → ignored_by match base rel_path is_dir ignored (before ++ p ∷ behind) ≡ true
  unfolding ignored_by
  ignored_by-append ignored [] p behind on kept off =
      ignored_by_kept _ behind off ∙ ground (arith, on, kept)
  ignored_by-append ignored (q ∷ before) p behind on kept off =
      ignored_by-append (if applies match base rel_path is_dir q then not q.negated else ignored)
        before p behind on kept off

  -- A path is ignored exactly when the last rule that applies to it is there and is not negated.
  pub is_ignored_iff :
      (patterns : List IgnorePattern)
      → (is_ignored match base patterns rel_path is_dir ≡ true)
        ↔ Decides (applies match base rel_path is_dir) patterns
  unfolding is_ignored
  is_ignored_iff patterns = (
    λ h. elim (ignored_by-Decides false patterns h) [
      | inl (no_rule, off) ↦ absurd (cc)
      | inr decides ↦ decides
    ],
    λ d.
        let (before, p, behind, e, on, kept, off) = d in
        rw e (ignored_by-append false before p behind on kept off),
  )

-- A rule is anchored, or its pattern is a single component that is matched anywhere, but not both.
pub record IsRule (p : IgnorePattern) : Type 0 where
  pub one_way : p.match_base ≡ not p.anchored
  pub single : p.match_base ≡ true → any is_slash p.pattern ≡ false

rule-IsRule : (negated : Bool) (line : Bytes) → IsRule (rule negated line)
unfolding rule
rule-IsRule negated line = ground arith

parse_line-IsRule : (text : Bytes) (p : IgnorePattern) → parse_line text ≡ some p → IsRule p
unfolding parse_line
parse_line-IsRule text p h =
    let line = trim_right is_blank text in
    elim (Bool-cases (is_empty line || starts_with b'#' line)) [
      | inl nothing ↦ absurd (ground (arith, h, nothing))
      | inr something ↦ elim (Bool-cases (starts_with b'!' line)) [
        | inl bang ↦
            let made : rule true (rest_of line) ≡ p = ground (arith, h, something, bang) in
            rw (← made) (rule-IsRule true (rest_of line))
        | inr plain ↦
            let made : rule false line ≡ p = ground (arith, h, something, plain) in
            rw (← made) (rule-IsRule false line)
      ]
    ]

-- Each rule that is read is either anchored or matched against the last component, never neither and never both;
-- in the second case its pattern has no slash.
pub parse_clocheignore-AreRules :
    (texts : List Bytes)
    → All
        (λ p.
          (p.match_base ≡ not p.anchored) × (p.match_base ≡ true → any is_slash p.pattern ≡ false))
        (parse_clocheignore texts)
unfolding parse_clocheignore
parse_clocheignore-AreRules [] = tt
parse_clocheignore-AreRules (text ∷ texts) = elim (Option-cases (parse_line text)) [
  | inl e ↦ rw (e, parse_clocheignore) (parse_clocheignore-AreRules texts)
  | inr (p, e) ↦
      let r = parse_line-IsRule text p e in
      rw (e, parse_clocheignore) ((r.one_way, r.single), parse_clocheignore-AreRules texts)
]
