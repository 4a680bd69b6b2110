-- ===== src/Prompt/Template/Ends.antt =====
-- Resolve comes to an end: its loops and its nested calls do not run out of fuel.
use Prim.Native.Nat.{◌<◌}
use cloche.Base.{
  ℕ, zero, suc, ◌+◌, ◌≡◌, ◌≢◌, refl, Bool, true, false, Option, none, some, [], ◌∷◌, ◌++◌,
  if◌then◌else◌, eqb, length, Result, ok, err, arith,
}
use cloche.Prompt.Text.{Text, trim_space, cut, length-trim_space, length-cut}
use cloche.Prompt.Template.{
  Outside, Resolver, ResolveError, out_of_fuel, M, pure, ◌>>=◌, and_then, open_pair, cut_directive,
  take_ident, KvAnswer, kv_found, kv_missing, kv_failed, ShellAnswer, output, timed_out, exit_error,
  lookup_kv, builtin_or, kv_answered, shell_answered, file_answered, lookup_var, run_shell,
  resolved_path, read_file, expand, at_dollar, resolve_bare_vars, bare_vars, eval_shell, eval_file,
  eval_directive, at_directive, at_open, resolve_str, resolve,
}
use cloche.Prompt.Template.Fuel.{length-take_ident, length-cut_directive}

-- A computation that does not run out of fuel, whatever the world answers.
abbrev pub Answers : {W : Type 0} → Result ResolveError Text × W → Type 0
Answers (answer, world) = answer ≢ err out_of_fuel

abbrev pub Ends : {W : Type 0} → M W → Type 0
Ends {W} m = (world : W) → Answers (m world)

and_then-Answers :
    {W : Type 0} (next : Text → M W) (answer : Result ResolveError Text × W)
    → Answers answer
    → ((value : Text) → Ends (next value))
    → Answers (and_then next answer)
and_then-Answers next (ok value, world) h k = k value world
and_then-Answers next (err e, world) h k = λ same. h (cc)

if-Ends : {W : Type 0} (b : Bool) (m m' : M W) → Ends m → Ends m' → Ends (if b then m else m')
if-Ends true m m' h k = h
if-Ends false m m' h k = k

module _ {W : Type 0} (out : Outside W) (r : Resolver) where
  >>=-Ends :
      (m : M W) (next : Text → M W)
      → Ends m
      → ((value : Text) → Ends (next value))
      → Ends (m >>= next)
  >>=-Ends m next h k world = and_then-Answers next (m world) (h world) k

  -- A computation that goes on, and adds to what comes out.
  then_pure-Ends : (m : M W) (f : Text → Text) → Ends m → Ends (m >>= λ text. pure (f text))
  then_pure-Ends m f h = >>=-Ends m (λ text. pure (f text)) h (λ text world same. cc)

  kv_answered-Answers :
      (name : Text) (answer : KvAnswer × W) → Answers (kv_answered out r name answer)
  unfolding kv_answered
  kv_answered-Answers name (kv_found value, world) = λ same. cc
  kv_answered-Answers name (kv_missing, world) = λ same. cc
  kv_answered-Answers name (kv_failed, world) = λ same. cc

  lookup_kv-Ends : (has : Bool) (name : Text) → Ends (lookup_kv out r has name)
  unfolding lookup_kv
  lookup_kv-Ends true name world = kv_answered-Answers name (out.kv_get name world)
  lookup_kv-Ends false name world = λ same. cc

  builtin_or-Ends : (found : Option Text) (name : Text) → Ends (builtin_or out r found name)
  unfolding builtin_or
  builtin_or-Ends none name = lookup_kv-Ends r.has_kv name
  builtin_or-Ends (some value) name = λ world same. cc

  lookup_var-Ends : (name : Text) → Ends (lookup_var out r name)
  unfolding lookup_var
  lookup_var-Ends name = builtin_or-Ends (r.builtins name) name

  shell_answered-Answers :
      (cmd : Text) (answer : ShellAnswer × W) → Answers (shell_answered out r cmd answer)
  unfolding shell_answered
  shell_answered-Answers cmd (output text, world) = λ same. cc
  shell_answered-Answers cmd (timed_out, world) = λ same. cc
  shell_answered-Answers cmd (exit_error, world) = λ same. cc

  run_shell-Ends : (cmd : Text) → Ends (run_shell out r cmd)
  unfolding run_shell
  run_shell-Ends cmd world = shell_answered-Answers cmd (out.shell cmd world)

  file_answered-Answers :
      (path : Text) (answer : Option Text × W) → Answers (file_answered out r path answer)
  unfolding file_answered
  file_answered-Answers path (some text, world) = λ same. cc
  file_answered-Answers path (none, world) = λ same. cc

  read_file-Ends : (path : Text) → Ends (read_file out r path)
  unfolding read_file
  read_file-Ends path world =
      file_answered-Answers path (out.read_file (resolved_path out r path) world)

  expand-Ends :
      (go : Text → M W) (parts : Text × Text) → Ends (go parts.1) → Ends (expand out r go parts)
  unfolding expand
  expand-Ends go ([], rest) h = then_pure-Ends (go rest) (λ text. b'$' ∷ text) h
  expand-Ends go (c ∷ name, rest) h =
      >>=-Ends (lookup_var out r (c ∷ name)) _ (lookup_var-Ends (c ∷ name))
        (λ value. then_pure-Ends (go rest) (λ text. value ++ text) h)

  -- The texts below a length are resolved.
  abbrev EndsBelow : ℕ → (Text → M W) → Type 0
  EndsBelow n go = (s : Text) → length s < n → Ends (go s)

  at_dollar-Ends :
      (go : Text → M W) (s : Text) → EndsBelow (suc (length s)) go → Ends (at_dollar out r go s)
  unfolding at_dollar
  at_dollar-Ends go [] h = expand-Ends go ([], []) (h [] (omega arith))
  at_dollar-Ends go (c ∷ s) h =
      if-Ends (eqb c b'$') _ _
        (then_pure-Ends (go s) (λ text. b'$' ∷ b'$' ∷ text) (h s (omega arith)))
        (expand-Ends go (take_ident true (c ∷ s))
          (h (take_ident true (c ∷ s)).1 (omega (arith, length-take_ident true (c ∷ s)))))

  resolve_bare_vars-Ends :
      (fuel : ℕ) (s : Text) → length s < fuel → Ends (resolve_bare_vars out r fuel s)
  unfolding resolve_bare_vars
  resolve_bare_vars-Ends zero s h = absurd (omega arith)
  resolve_bare_vars-Ends (suc fuel) [] h = λ world same. cc
  resolve_bare_vars-Ends (suc fuel) (c ∷ s) h =
      if-Ends (eqb c b'$') _ _
        (at_dollar-Ends (resolve_bare_vars out r fuel) s
          (λ t k. resolve_bare_vars-Ends fuel t (omega arith)))
        (then_pure-Ends (resolve_bare_vars out r fuel s) (λ text. c ∷ text)
          (resolve_bare_vars-Ends fuel s (omega arith)))

  bare_vars-Ends : (s : Text) → Ends (bare_vars out r s)
  bare_vars-Ends s = resolve_bare_vars-Ends (suc (length s)) s (omega arith)

  eval_shell-Ends : (cmd : Text) → Ends (eval_shell out r cmd)
  unfolding eval_shell
  eval_shell-Ends cmd =
      >>=-Ends (bare_vars out r cmd) _ (bare_vars-Ends cmd) (λ resolved. run_shell-Ends _)

  eval_file-Ends : (go : Text → M W) (path : Text) → Ends (go path) → Ends (eval_file out r go path)
  unfolding eval_file
  eval_file-Ends go path h = >>=-Ends (go path) _ h (λ resolved.
      >>=-Ends (bare_vars out r resolved) _ (bare_vars-Ends resolved)
        (λ final. read_file-Ends final))

  eval_directive-Ends :
      (go : Text → M W) (body : Text)
      → EndsBelow (suc (length body)) go
      → Ends (eval_directive out r go body)
  unfolding eval_directive
  eval_directive-Ends go [] h = λ world same. cc
  eval_directive-Ends go (c ∷ s) h = if-Ends (eqb c b'$') _ _ (lookup_var-Ends (trim_space s)) (
      if-Ends (eqb c b'!') _ _ (eval_shell-Ends (trim_space s)) (
        if-Ends (eqb c b'@') _ _
          (eval_file-Ends go (trim_space s) (h (trim_space s) (omega (arith, length-trim_space s))))
          (λ world same. cc)))

  at_directive-Ends :
      (n : ℕ) (go : Text → M W) (after : Text) (found : Option (Text × Text))
      → EndsBelow n go
      → length after < n
      → ((body rest : Text) → found ≡ some (body, rest) → length body + length rest < length after)
      → Ends (at_directive out r go after found)
  unfolding at_directive
  at_directive-Ends n go after none h small shorter =
      then_pure-Ends (go after) (λ text. open_pair ++ text) (h after small)
  at_directive-Ends n go after (some (body, rest)) h small shorter =
      let bound = shorter body rest refl in
      >>=-Ends (eval_directive out r go (trim_space body)) _
        (eval_directive-Ends go (trim_space body)
          (λ t k. h t (omega (arith, length-trim_space body))))
        (λ value. then_pure-Ends (go rest) (λ text. value ++ text) (h rest (omega arith)))

  at_open-Ends :
      (go : Text → M W) (src : Text) (found : Option (Text × Text))
      → EndsBelow (length src) go
      → ((before after : Text)
          → found ≡ some (before, after)
          → length before + length after < length src)
      → Ends (at_open out r go src found)
  unfolding at_open
  at_open-Ends go src none h shorter = λ world same. cc
  at_open-Ends go src (some (before, after)) h shorter =
      then_pure-Ends (at_directive out r go after (cut_directive 0 after)) (λ text. before ++ text)
        (at_directive-Ends (length src) go after (cut_directive 0 after) h
          (omega (arith, shorter before after refl)) (length-cut_directive 0 after))

  resolve_str-Ends : (fuel : ℕ) (src : Text) → length src < fuel → Ends (resolve_str out r fuel src)
  unfolding resolve_str
  resolve_str-Ends zero src h = absurd (omega arith)
  resolve_str-Ends (suc fuel) src h =
      at_open-Ends (resolve_str out r fuel) src (cut open_pair src)
        (λ t k. resolve_str-Ends fuel t (omega arith))
        (λ before after found. length-cut open_pair src before after (omega arith) found)

  -- Whatever the shell, the files and the key-value store answer, Resolve returns with a text or with
  -- one of its own errors: the loop over a template, the resolution of the paths of files in it and
  -- the loop over the variables of a command end within the fuel that the length of the text gives.
  pub resolve-Ends : (src : Text) → Ends (resolve out r src)
  unfolding resolve
  resolve-Ends src = resolve_str-Ends (suc (length src)) src (omega arith)
