-- ===== src/Docker/Ignore/Doublestar.antt =====
-- internal/adapters/docker/ignore.go: what patterns with "**" match.
use cloche.Base.{
  ℕ, zero, suc, ◌+◌, ◌≤◌, ◌<◌, Bool, true, false, ◌&&◌, ◌≡◌, refl, sym, ap, ◌∙◌, inl, inr, none,
  some, List, [], ◌∷◌, ◌++◌, eqb, any, length, arith, Bool-cases, Option-cases,
}
use cloche.Docker.Ignore.{
  Bytes, is_empty, is_slash, trim_suffix, trim_prefix, cut_doublestar, components, join, any_split,
  match_doublestar, glob, match_glob,
}
use mathlib.Core.Path.{fun_ext}

length-cut_doublestar :
    (pattern before behind : Bytes)
    → cut_doublestar pattern ≡ some (before, behind)
    → length before + length behind + 2 ≤ length pattern
unfolding cut_doublestar
length-cut_doublestar [] before behind h = cc
length-cut_doublestar (c ∷ []) before behind h = cc
length-cut_doublestar (c ∷ d ∷ s) before behind h = elim (Bool-cases (eqb c b'*' && eqb d b'*')) [
  | inl star ↦
      let a : before ≡ [] = ground (arith, h, star) in
      let b : behind ≡ s = ground (arith, h, star) in omega (arith, ap length a, ap length b)
  | inr other ↦ elim (Option-cases (cut_doublestar (d ∷ s))) [
    | inl e ↦ absurd (ground (arith, h, other, e))
    | inr ((a, b), e) ↦
        let first : before ≡ c ∷ a = ground (arith, h, other, e) in
        let second : behind ≡ b = ground (arith, h, other, e) in
        omega (arith, ap length first, ap length second, length-cut_doublestar (d ∷ s) a b e)
  ]
]

length-trim_suffix : (s : Bytes) → length (trim_suffix s) ≤ length s
unfolding trim_suffix
length-trim_suffix [] = omega arith
length-trim_suffix (c ∷ []) = ground arith
length-trim_suffix (c ∷ d ∷ s) = omega (arith, length-trim_suffix (d ∷ s))

length-trim_prefix : (s : Bytes) → length (trim_prefix s) ≤ length s
unfolding trim_prefix
length-trim_prefix [] = omega arith
length-trim_prefix (c ∷ s) = ground arith

doublestar_same :
    (one other : Bytes → Bytes → Bool) (before behind name : Bytes)
    → one (trim_suffix before) ≡ other (trim_suffix before)
    → one (trim_prefix behind) ≡ other (trim_prefix behind)
    → match_doublestar one before behind name ≡ match_doublestar other before behind name
unfolding match_doublestar
doublestar_same one other before behind name p q = rw (p, q) refl

module _ (match : Bytes → Bytes → Bool) where
  -- Any fuel above the length of the pattern gives the same answer.
  glob_enough :
      (f g : ℕ) (pattern name : Bytes)
      → length pattern < f
      → length pattern < g
      → glob match f pattern name ≡ glob match g pattern name
  unfolding glob
  glob_enough zero g pattern name hf hg = absurd (omega arith)
  glob_enough (suc f) zero pattern name hf hg = absurd (omega arith)
  glob_enough (suc f) (suc g) pattern name hf hg = elim (Option-cases (cut_doublestar pattern)) [
    | inl e ↦ rw (e, glob) refl
    | inr ((before, behind), e) ↦
        let shorter = length-cut_doublestar pattern before behind e in
        rw (e, glob)
          (doublestar_same (glob match f) (glob match g) before behind name
            (fun_ext λ n.
              glob_enough f g (trim_suffix before) n
                (omega (arith, shorter, hf, length-trim_suffix before))
                (omega (arith, shorter, hg, length-trim_suffix before)))
            (fun_ext λ n.
              glob_enough f g (trim_prefix behind) n
                (omega (arith, shorter, hf, length-trim_prefix behind))
                (omega (arith, shorter, hg, length-trim_prefix behind))))
  ]

  -- `matchGlob`, with the fuel that it has here, satisfies the recursive equation of its source:
  -- without "**" it is `filepath.Match`, and otherwise it is `matchDoublestar` on the parts
  -- before and behind the first "**", which calls `matchGlob` again.
  pub match_glob_lem :
      (pattern name : Bytes)
      → match_glob match pattern name ≡ (elim (cut_doublestar pattern) [
        | none ↦ match pattern name
        | some (before, behind) ↦ match_doublestar (match_glob match) before behind name
      ])
  unfolding match_glob glob
  match_glob_lem pattern name = elim (Option-cases (cut_doublestar pattern)) [
    | inl e ↦ rw (e, glob) refl
    | inr ((before, behind), e) ↦
        let shorter = length-cut_doublestar pattern before behind e in
        rw (e, glob)
          (doublestar_same (glob match (length pattern)) (match_glob match) before behind name
            (fun_ext λ n.
              glob_enough (length pattern) (suc (length (trim_suffix before))) (trim_suffix before)
                n (omega (arith, shorter, length-trim_suffix before)) (omega arith))
            (fun_ext λ n.
              glob_enough (length pattern) (suc (length (trim_prefix behind))) (trim_prefix behind)
                n (omega (arith, shorter, length-trim_prefix behind)) (omega arith)))
  ]

any_slash : (p s : Bytes) → any is_slash (p ++ b'/' ∷ s) ≡ true
unfolding any
any_slash [] s = refl
any_slash (c ∷ p) s = ground (arith, any_slash p s)

join_slash : (p q : Bytes) (ps : List Bytes) → any is_slash (join (p ∷ q ∷ ps)) ≡ true
unfolding join
join_slash p q ps = any_slash p (join (q ∷ ps))

-- What stands before the split has two components, so a test that is true of single ones fails.
join_left : (a p : Bytes) (left : List Bytes) → any is_slash (join (a ∷ left ++ p ∷ [])) ≡ true
join_left a p [] = join_slash a p []
join_left a p (b ∷ left) = join_slash a b (left ++ p ∷ [])

abbrev IsSingle : (Bytes → Bool) → Type 0
IsSingle test = (n : Bytes) → test n ≡ true → any is_slash n ≡ false

any_split_wide :
    (before behind : Bytes → Bool) (a : Bytes) (left ps : List Bytes)
    → IsSingle before
    → any_split before behind (a ∷ left) ps ≡ false
unfolding any_split
any_split_wide before behind a left [] single = refl
any_split_wide before behind a left (p ∷ []) single = refl
any_split_wide before behind a left (p ∷ q ∷ ps) single = ground (
  arith,
  single (join (a ∷ left ++ p ∷ [])),
  join_left a p left,
  any_split_wide before behind a (left ++ p ∷ []) (q ∷ ps) single,
)

any_split_two :
    (before behind : Bytes → Bool) (ps : List Bytes)
    → IsSingle before
    → IsSingle behind
    → any_split before behind [] ps ≡ true
    → length ps ≡ 2
unfolding any_split
any_split_two before behind [] one two h = cc
any_split_two before behind (p ∷ []) one two h = cc
any_split_two before behind (p ∷ q ∷ []) one two h = omega arith
any_split_two before behind (p ∷ q ∷ r ∷ ps) one two h = absurd (
    ground (
      arith,
      h,
      two (join (q ∷ r ∷ ps)),
      join_slash q r ps,
      any_split_wide before behind p [] (q ∷ r ∷ ps) one,
    ))

doublestar_middle :
    (test : Bytes → Bytes → Bool) (before behind name : Bytes)
    → is_empty (trim_suffix before) ≡ false
    → is_empty (trim_prefix behind) ≡ false
    → match_doublestar test before behind name
      ≡ any_split (test (trim_suffix before)) (test (trim_prefix behind)) [] (components name)
unfolding match_doublestar
doublestar_middle test before behind name e e' = rw (e, e') refl

-- A pattern with one "**" in its middle, whose two sides match single components only, matches no path but those
-- of exactly two components: "**" does not stand for any number of components there.
pub match_glob-length :
    (match : Bytes → Bytes → Bool) (pattern before behind name : Bytes)
    → cut_doublestar pattern ≡ some (before, behind)
    → is_empty (trim_suffix before) ≡ false
    → is_empty (trim_prefix behind) ≡ false
    → cut_doublestar (trim_suffix before) ≡ none
    → cut_doublestar (trim_prefix behind) ≡ none
    → ((n : Bytes) → match (trim_suffix before) n ≡ true → any is_slash n ≡ false)
    → ((n : Bytes) → match (trim_prefix behind) n ≡ true → any is_slash n ≡ false)
    → match_glob match pattern name ≡ true
    → length (components name) ≡ 2
match_glob-length match pattern before behind name cut some_before some_behind plain plain' single
      single' h =
    let whole = match_glob_lem match pattern name in
    let left : match_glob match (trim_suffix before) ≡ match (trim_suffix before) =
      fun_ext λ n. match_glob_lem match (trim_suffix before) n ∙ rw plain refl in
    let right : match_glob match (trim_prefix behind) ≡ match (trim_prefix behind) =
      fun_ext λ n. match_glob_lem match (trim_prefix behind) n ∙ rw plain' refl in
    let splits : any_split (match (trim_suffix before)) (match (trim_prefix behind)) []
          (components name)
        ≡ true =
      rw (← left, ← right)
        (sym (doublestar_middle (match_glob match) before behind name some_before some_behind)
          ∙ sym (whole ∙ rw cut refl)
          ∙ h) in
    any_split_two (match (trim_suffix before)) (match (trim_prefix behind)) (components name) single
      single' splits
