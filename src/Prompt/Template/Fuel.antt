-- ===== src/Prompt/Template/Fuel.antt =====
-- The fuel of Resolve: a text's length is enough, and more makes no difference.
use Prim.Native.Nat.{◌≤◌, ◌<◌}
use cloche.Base.{
  ℕ, zero, suc, ◌+◌, ◌≡◌, refl, inl, inr, Bool, true, false, ◌&&◌, ◌-◌, Option, none, some, [], ◌∷◌,
  if◌then◌else◌, eqb, length, length-append, arith, Bool-cases,
}
use cloche.Prompt.Text.{Text, trim_space, cut, length-trim_space, length-cut}
use cloche.Prompt.Template.{
  Outside, Resolver, M, open_pair, cut_directive, take_ident, expand, at_dollar, resolve_bare_vars,
  eval_file, eval_directive, at_directive, at_open, resolve_str, resolve, prepend,
}

-- What remains of a text is shorter than the text.
pub length-take_ident : (first : Bool) (s : Text) → length (take_ident first s).1 ≤ length s
unfolding take_ident
length-take_ident first [] = omega arith
length-take_ident first (c ∷ s) = ground (arith, length-take_ident false s)

length-prepend :
    (s : Text) (n k : ℕ) (found : Option (Text × Text)) (body rest : Text)
    → length s + n ≤ k
    → ((b t : Text) → found ≡ some (b, t) → length b + length t < n)
    → prepend s found ≡ some (body, rest)
    → length body + length rest < k
unfolding prepend
length-prepend s n k none body rest small shorter h = cc
length-prepend s n k (some (b, t)) body rest small shorter h =
    ground (arith, shorter b t refl, length-append s b)

pub length-cut_directive :
    (depth : ℕ) (s body rest : Text)
    → cut_directive depth s ≡ some (body, rest)
    → length body + length rest < length s
unfolding cut_directive
length-cut_directive depth [] body rest h = cc
length-cut_directive depth (c ∷ []) body rest h = cc
length-cut_directive depth (c ∷ d ∷ s) body rest h = elim (Bool-cases (eqb c b'{' && eqb d b'{')) [
  | inl opens ↦
      length-prepend (c ∷ d ∷ []) (length s) (length {A = ℕ} (c ∷ d ∷ s))
        (cut_directive (suc depth) s) body rest (omega arith) (length-cut_directive (suc depth) s)
        (rw opens at h)
  | inr other ↦ elim (Bool-cases (eqb c b'}' && eqb d b'}')) [
    | inl closes ↦ elim (Bool-cases (eqb depth 0)) [
      | inl outer ↦
          let same : ◌≡◌ {A = Option (Text × Text)} (some ([], s)) (some (body, rest)) =
            rw (other, closes, outer) at h in
          ground arith
      | inr inner ↦
          length-prepend (c ∷ d ∷ []) (length s) (length {A = ℕ} (c ∷ d ∷ s))
            (cut_directive (depth - 1) s) body rest (omega arith)
            (length-cut_directive (depth - 1) s) (rw (other, closes, inner) at h)
    ]
    | inr plain ↦
        length-prepend (c ∷ []) (suc (length s)) (length {A = ℕ} (c ∷ d ∷ s))
          (cut_directive depth (d ∷ s)) body rest (omega arith) (length-cut_directive depth (d ∷ s))
          (rw (other, plain) at h)
  ]
]

if_agree {ℓ} :
    {A : Type ℓ} (b : Bool) {x x' y y' : A}
    → x ≡ x'
    → y ≡ y'
    → (if b then x else y) ≡ (if b then x' else y')
if_agree true p q = p
if_agree false p q = q

-- Two ways to go on that agree on the texts below a length.
module _ {W : Type 0} (out : Outside W) (r : Resolver) where
  abbrev Agree : ℕ → (Text → M W) → (Text → M W) → Type 0
  Agree n go go' = (s : Text) → length s < n → go s ≡ go' s

  expand-Agree :
      (n : ℕ) (parts : Text × Text) (go go' : Text → M W)
      → Agree n go go'
      → length parts.1 < n
      → expand out r go parts ≡ expand out r go' parts
  unfolding expand
  expand-Agree n ([], rest) go go' h k = rw (h rest k) refl
  expand-Agree n (c ∷ name, rest) go go' h k = rw (h rest k) refl

  at_dollar-Agree :
      (s : Text) (go go' : Text → M W)
      → Agree (suc (length s)) go go'
      → at_dollar out r go s ≡ at_dollar out r go' s
  unfolding at_dollar
  at_dollar-Agree [] go go' h = expand-Agree 1 ([], []) go go' h (omega arith)
  at_dollar-Agree (c ∷ s) go go' h = if_agree (eqb c b'$') (rw (h s (omega arith)) refl) (
      expand-Agree (suc (suc (length s))) (take_ident true (c ∷ s)) go go' h
        (omega (arith, length-take_ident true (c ∷ s))))

  resolve_bare_vars_enough :
      (f g : ℕ) (s : Text)
      → length s < f
      → length s < g
      → resolve_bare_vars out r f s ≡ resolve_bare_vars out r g s
  unfolding resolve_bare_vars
  resolve_bare_vars_enough zero g s h k = absurd (omega arith)
  resolve_bare_vars_enough (suc f) zero s h k = absurd (omega arith)
  resolve_bare_vars_enough (suc f) (suc g) [] h k = refl
  resolve_bare_vars_enough (suc f) (suc g) (c ∷ s) h k =
      if_agree (eqb c b'$')
        (at_dollar-Agree s (resolve_bare_vars out r f) (resolve_bare_vars out r g)
          (λ t small. resolve_bare_vars_enough f g t (omega arith) (omega arith)))
        (rw (resolve_bare_vars_enough f g s (omega arith) (omega arith)) refl)

  eval_directive-Agree :
      (body : Text) (go go' : Text → M W)
      → Agree (suc (length body)) go go'
      → eval_directive out r go body ≡ eval_directive out r go' body
  unfolding eval_directive eval_file
  eval_directive-Agree [] go go' h = refl
  eval_directive-Agree (c ∷ s) go go' h = if_agree (eqb c b'$') refl (
      if_agree (eqb c b'!') refl (
        if_agree (eqb c b'@') (rw (h (trim_space s) (omega (arith, length-trim_space s))) refl)
          refl))

  at_directive-Agree :
      (n : ℕ) (after : Text) (found : Option (Text × Text)) (go go' : Text → M W)
      → Agree n go go'
      → length after < n
      → ((body rest : Text) → found ≡ some (body, rest) → length body + length rest < length after)
      → at_directive out r go after found ≡ at_directive out r go' after found
  unfolding at_directive
  at_directive-Agree n after none go go' h small shorter = rw (h after small) refl
  at_directive-Agree n after (some (body, rest)) go go' h small shorter =
      let bound = shorter body rest refl in
      let same =
        eval_directive-Agree (trim_space body) go go'
          (λ t k. h t (omega (arith, length-trim_space body))) in
      rw (same, h rest (omega arith)) refl

  at_open-Agree :
      (src : Text) (found : Option (Text × Text)) (go go' : Text → M W)
      → Agree (length src) go go'
      → ((before after : Text)
          → found ≡ some (before, after)
          → length before + length after < length src)
      → at_open out r go src found ≡ at_open out r go' src found
  unfolding at_open
  at_open-Agree src none go go' h shorter = refl
  at_open-Agree src (some (before, after)) go go' h shorter =
      rw
        (at_directive-Agree (length src) after (cut_directive 0 after) go go' h
          (omega (arith, shorter before after refl)) (length-cut_directive 0 after))
        refl

  pub resolve_str_enough :
      (f g : ℕ) (src : Text)
      → length src < f
      → length src < g
      → resolve_str out r f src ≡ resolve_str out r g src
  unfolding resolve_str
  resolve_str_enough zero g src h k = absurd (omega arith)
  resolve_str_enough (suc f) zero src h k = absurd (omega arith)
  resolve_str_enough (suc f) (suc g) src h k =
      at_open-Agree src (cut open_pair src) (resolve_str out r f) (resolve_str out r g)
        (λ t small. resolve_str_enough f g t (omega arith) (omega arith))
        (λ before after found. length-cut open_pair src before after (omega arith) found)

  -- The loop of `resolveStr`, without fuel.
  pub resolve_lem :
      (src : Text) → resolve out r src ≡ at_open out r (resolve out r) src (cut open_pair src)
  unfolding resolve resolve_str
  resolve_lem src =
      at_open-Agree src (cut open_pair src) (resolve_str out r (length src)) (resolve out r)
        (λ t small. resolve_str_enough (length src) (suc (length t)) t small (omega arith))
        (λ before after found. length-cut open_pair src before after (omega arith) found)
