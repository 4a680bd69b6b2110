-- ===== src/Prompt/Template/Written.antt =====
-- Resolve on a template that is written as a list of texts and directives.
use mathlib.Core.List.{append-nil, append_assoc}
use mathlib.Core.Path.{fun_ext}
use cloche.Base.{
  ℕ, suc, ◌-◌, ◌≡◌, ◌≢◌, refl, sym, ap, ◌∙◌, Option, none, some, List, [], ◌∷◌, ◌++◌, Result, ok,
  err, All, arith,
}
use cloche.Prompt.Text.{Text, trim_space, cut, strip_prefix, later}
use cloche.Prompt.Template.{
  Outside, Resolver, ResolveError, M, pure, ◌>>=◌, and_then, open_pair, close_pair, prepend,
  cut_directive, eval_directive, at_directive, at_open, resolve,
}
use cloche.Prompt.Template.Fuel.{resolve_lem}

pub data Segment : Type 0 where
  text directive : Text → Segment

abbrev pub print : List Segment → Text
print [] = []
print (text t ∷ segments) = t ++ print segments
print (directive body ∷ segments) = open_pair ++ (body ++ (close_pair ++ print segments))

-- A text that opens no directive, also together with what follows it.
abbrev pub IsPlain : Text → Type 0
IsPlain [] = Unit
IsPlain (c ∷ []) = c ≢ b'{'
IsPlain (c ∷ d ∷ s) = (c ≡ b'{' → d ≢ b'{') × IsPlain (d ∷ s)

-- A body whose pairs of braces are balanced, with no single braces.
pub data IsBalanced : Text → Type 0 where
  nothing : IsBalanced []
  char : (c : ℕ) (s : Text) → c ≢ b'{' → c ≢ b'}' → IsBalanced s → IsBalanced (c ∷ s)
  nest :
      (s t whole : Text)
      → IsBalanced s
      → IsBalanced t
      → whole ≡ open_pair ++ (s ++ (close_pair ++ t))
      → IsBalanced whole

abbrev pub IsWritten : Segment → Type 0
IsWritten (text t) = IsPlain t
IsWritten (directive body) = IsBalanced body

prepend-later :
    (c : ℕ) (s : Text) (found : Option (Text × Text))
    → later c (prepend s found) ≡ prepend (c ∷ s) found
unfolding later prepend
prepend-later c s none = refl
prepend-later c s (some (b, t)) = refl

prepend-append :
    (s t : Text) (found : Option (Text × Text))
    → prepend (s ++ t) found ≡ prepend s (prepend t found)
unfolding prepend
prepend-append s t none = refl
prepend-append s t (some (b, u)) = ap (λ x. some (x, u)) (append_assoc s t b)

prepend_nil : (found : Option (Text × Text)) → prepend [] found ≡ found
unfolding prepend
prepend_nil none = refl
prepend_nil (some (b, t)) = refl

cut_cons :
    (c : ℕ) (s : Text)
    → strip_prefix open_pair (c ∷ s) ≡ none
    → cut open_pair (c ∷ s) ≡ later c (cut open_pair s)
unfolding cut
cut_cons c s h = rw (h, cut)

-- A plain text is passed over.
cut-append : (t s : Text) → IsPlain t → cut open_pair (t ++ s) ≡ prepend t (cut open_pair s)
unfolding strip_prefix
cut-append [] s h = sym (prepend_nil (cut open_pair s))
cut-append (c ∷ []) s h =
    cut_cons c s (ground arith)
    ∙ ap (later c) (sym (prepend_nil (cut open_pair s)))
    ∙ prepend-later c [] (cut open_pair s)
cut-append (c ∷ d ∷ t) s h =
    cut_cons c (d ∷ t ++ s) (ground arith)
    ∙ ap (later c) (cut-append (d ∷ t) s h.1)
    ∙ prepend-later c (d ∷ t) (cut open_pair s)

cut_open : (s : Text) → cut open_pair (open_pair ++ s) ≡ some ([], s)
unfolding cut strip_prefix
cut_open s = refl

cut_directive_opens :
    (depth : ℕ) (s : Text)
    → cut_directive depth (open_pair ++ s) ≡ prepend open_pair (cut_directive (suc depth) s)
unfolding cut_directive
cut_directive_opens depth s = refl

pred_suc : (n : ℕ) → suc n - 1 ≡ n
pred_suc n = omega arith

cut_directive_closes :
    (depth : ℕ) (s : Text)
    → cut_directive (suc depth) (close_pair ++ s) ≡ prepend close_pair (cut_directive depth s)
unfolding cut_directive
cut_directive_closes depth s = ground (arith, ap (λ (k : ℕ). cut_directive k s) (pred_suc depth))

cut_directive_char :
    (depth c : ℕ) (s : Text)
    → c ≢ b'{'
    → c ≢ b'}'
    → cut_directive depth (c ∷ s) ≡ prepend (c ∷ []) (cut_directive depth s)
unfolding cut_directive
cut_directive_char depth c [] h k = refl
cut_directive_char depth c (d ∷ s) h k = ground arith

prepend_nested :
    (s t : Text) (found : Option (Text × Text))
    → prepend (open_pair ++ (s ++ (close_pair ++ t))) found
      ≡ prepend open_pair (prepend s (prepend close_pair (prepend t found)))
prepend_nested s t found =
    prepend-append open_pair (s ++ (close_pair ++ t)) found
    ∙ ap (prepend open_pair) (
        prepend-append s (close_pair ++ t) found
        ∙ ap (prepend s) (prepend-append close_pair t found))

-- A balanced text is passed over at any depth.
cut_directive-append :
    (depth : ℕ) (s : Text)
    → IsBalanced s
    → (more : Text) → cut_directive depth (s ++ more) ≡ prepend s (cut_directive depth more)
cut_directive-append depth s nothing more = sym (prepend_nil (cut_directive depth more))
cut_directive-append depth s (char c t h k b) more =
    cut_directive_char depth c (t ++ more) h k
    ∙ ap (prepend (c ∷ [])) (cut_directive-append depth t b more)
    ∙ sym (prepend-append (c ∷ []) t (cut_directive depth more))
cut_directive-append depth s (nest t u whole b b' e) more =
    let found = cut_directive depth more in
    let inner =
      ap (cut_directive (suc depth)) (append_assoc t (close_pair ++ u) more)
      ∙ cut_directive-append (suc depth) t b ((close_pair ++ u) ++ more)
      ∙ ap (prepend t) (
          cut_directive_closes depth (u ++ more)
          ∙ ap (prepend close_pair) (cut_directive-append depth u b' more)) in
    ap (λ x. cut_directive depth (x ++ more)) e
    ∙ cut_directive_opens depth ((t ++ (close_pair ++ u)) ++ more)
    ∙ ap (prepend open_pair) inner
    ∙ sym (prepend_nested t u found)
    ∙ ap (λ x. prepend x found) (sym e)

cut_directive_outer : (s : Text) → cut_directive 0 (close_pair ++ s) ≡ some ([], s)
unfolding cut_directive
cut_directive_outer s = refl

-- The end of a directive is found behind its body.
cut_directive_body :
    (body rest : Text)
    → IsBalanced body
    → cut_directive 0 (body ++ (close_pair ++ rest)) ≡ some (body, rest)
unfolding prepend
cut_directive_body body rest b =
    cut_directive-append 0 body b (close_pair ++ rest)
    ∙ ap (prepend body) (cut_directive_outer rest)
    ∙ ap (λ x. some (x, rest)) (append-nil body)

module _ {W : Type 0} (out : Outside W) (r : Resolver) where
  -- What the segments stand for: each directive is evaluated once, in order, and its value goes
  -- into the result as it is.
  unfoldable pub evaluate : List Segment → M W
  evaluate [] = pure []
  evaluate (text t ∷ segments) = evaluate segments >>= λ rest. pure (t ++ rest)
  evaluate (directive body ∷ segments) =
      eval_directive out r (resolve out r) (trim_space body) >>= λ value.
      (evaluate segments >>= λ rest. pure (value ++ rest))

  and_then-append :
      (s t : Text) (answer : Result ResolveError Text × W)
      → and_then (λ rest. pure ((s ++ t) ++ rest)) answer
        ≡ and_then (λ rest. pure (s ++ rest)) (and_then (λ rest. pure (t ++ rest)) answer)
  and_then-append s t (ok rest, world) = ap (λ x. (ok x, world)) (append_assoc s t rest)
  and_then-append s t (err e, world) = refl

  and_then_nil :
      (answer : Result ResolveError Text × W) → and_then (λ rest. pure ([] ++ rest)) answer ≡ answer
  and_then_nil (ok rest, world) = refl
  and_then_nil (err e, world) = refl

  at_open-append :
      (t s : Text) (found : Option (Text × Text)) (world : W)
      → at_open out r (resolve out r) (t ++ s) (prepend t found) world
        ≡ and_then (λ rest. pure (t ++ rest)) (at_open out r (resolve out r) s found world)
  unfolding at_open prepend
  at_open-append t s none world = refl
  at_open-append t s (some (before, after)) world =
      and_then-append t before
        (at_directive out r (resolve out r) after (cut_directive 0 after) world)

  -- A plain text is copied.
  resolve_text :
      (t s : Text) (world : W)
      → IsPlain t
      → resolve out r (t ++ s) world ≡ and_then (λ rest. pure (t ++ rest)) (resolve out r s world)
  resolve_text t s world h =
      ap (λ m. m world) (resolve_lem out r (t ++ s))
      ∙ ap (λ x. at_open out r (resolve out r) (t ++ s) x world) (cut-append t s h)
      ∙ at_open-append t s (cut open_pair s) world
      ∙ ap (λ m. and_then (λ rest. pure (t ++ rest)) (m world)) (sym (resolve_lem out r s))

  at_open_nil :
      (src after : Text) (world : W)
      → at_open out r (resolve out r) src (some ([], after)) world
        ≡ at_directive out r (resolve out r) after (cut_directive 0 after) world
  unfolding at_open
  at_open_nil src after world =
      and_then_nil (at_directive out r (resolve out r) after (cut_directive 0 after) world)

  -- A directive is evaluated before what follows it.
  resolve_directive :
      (body s : Text) (world : W)
      → IsBalanced body
      → resolve out r (open_pair ++ (body ++ (close_pair ++ s))) world
        ≡ at_directive out r (resolve out r) (body ++ (close_pair ++ s)) (some (body, s)) world
  resolve_directive body s world b =
      let after = body ++ (close_pair ++ s) in
      ap (λ m. m world) (resolve_lem out r (open_pair ++ after))
      ∙ ap (λ x. at_open out r (resolve out r) (open_pair ++ after) x world) (cut_open after)
      ∙ at_open_nil (open_pair ++ after) after world
      ∙ ap (λ x. at_directive out r (resolve out r) after x world) (cut_directive_body body s b)

  resolve_nil : (world : W) → resolve out r [] world ≡ pure [] world
  unfolding at_open cut strip_prefix
  resolve_nil world = ap (λ m. m world) (resolve_lem out r [])

  -- A template that is written as plain texts (with no pair of opening braces, and none at the seam
  -- to what follows) and directives (whose bodies hold braces only as balanced pairs) resolves to what
  -- its segments stand for: the texts as they are, and in place of each directive its value, which
  -- is not resolved again; the directives are evaluated from left to right, each in the world that
  -- the one before left, and the first error ends the resolution with that error. This is so
  -- whatever the shell, the files and the key-value store answer.
  pub resolve-print :
      (segments : List Segment) (world : W)
      → All IsWritten segments
      → resolve out r (print segments) world ≡ evaluate segments world
  unfolding evaluate at_directive
  resolve-print [] world h = resolve_nil world
  resolve-print (text t ∷ segments) world h =
      resolve_text t (print segments) world h.0
      ∙ ap (and_then (λ rest. pure (t ++ rest))) (resolve-print segments world h.1)
  resolve-print (directive body ∷ segments) world h =
      let same = fun_ext (λ w. resolve-print segments w h.1) in
      resolve_directive body (print segments) world h.0
      ∙ ap
          (λ (m : M W).
            and_then (λ value. (m >>= λ rest. pure (value ++ rest)))
              (eval_directive out r (resolve out r) (trim_space body) world))
          same
