-- ===== src/Prompt/Template.antt =====
-- internal/adapters/agents/prompt/template.go: the directives `{{ }}` of a prompt, and the older
-- single braces. The shell, the files and the key-value store act on a world that is not modelled:
-- each call answers, and leaves another world.
pub mod Fuel
pub mod Ends
pub mod Written
use cloche.Base.{
  ℕ, zero, suc, ◌-◌, ◌≡◌, Bool, true, false, not, ◌&&◌, ◌||◌, Option, none, some, List, [], ◌∷◌,
  ◌++◌, if◌then◌else◌, eqb, leb, length, Result, ok, err,
}
use cloche.Prompt.Text.{Text, codes, trim_end, trim_space, strip_prefix, cut, contains, replace_all}

-- What a `KVReader` answers.
pub data KvAnswer : Type 0 where
  kv_found : Text → KvAnswer
  kv_missing kv_failed : KvAnswer

-- What `c.Output()` answers; an error while the deadline has passed is a time-out.
pub data ShellAnswer : Type 0 where
  output : Text → ShellAnswer
  timed_out exit_error : ShellAnswer

-- What the resolver calls outside: the key-value store, `sh -c`, `os.ReadFile`, and the functions
-- of path/filepath.
pub record Outside (W : Type 0) : Type 0 where
  pub kv_get : Text → W → KvAnswer × W
  pub shell : Text → W → ShellAnswer × W
  pub read_file : Text → W → Option Text × W
  pub is_abs : Text → Bool
  pub join : Text → Text → Text

-- `KV` of the source is nil if there is no reader; the timeout is on the side of the shell.
pub record Resolver : Type 0 where
  pub builtins : Text → Option Text
  pub has_kv : Bool
  pub work_dir : Text

pub data ResolveError : Type 0 where
  not_defined lookup_failed shell_timed_out shell_failed unreadable : Text → ResolveError
  out_of_fuel : ResolveError

-- A computation that acts on the world, also where it fails.
abbrev pub M : Type 0 → Type 0
M W = W → Result ResolveError Text × W

abbrev pub pure : {W : Type 0} → Text → M W
pure value world = (ok value, world)

abbrev pub fail : {W : Type 0} → ResolveError → M W
fail e world = (err e, world)

abbrev pub and_then :
    {W : Type 0} → (Text → M W) → Result ResolveError Text × W → Result ResolveError Text × W
and_then next (ok value, world) = next value world
and_then next (err e, world) = (err e, world)

infixl 5 ◌>>=◌
abbrev pub ◌>>=◌ : {W : Type 0} → M W → (Text → M W) → M W
◌>>=◌ m next world = and_then next (m world)

abbrev pub open_pair : Text
open_pair = b'{' ∷ b'{' ∷ []

abbrev pub close_pair : Text
close_pair = b'}' ∷ b'}' ∷ []

unfoldable pub prepend : Text → Option (Text × Text) → Option (Text × Text)
prepend s none = none
prepend s (some (before, rest)) = some (s ++ before, rest)

-- `findDirectiveEnd`, with the text before the closing pair and the text behind it in place of the
-- index of the pair
unfoldable pub cut_directive : ℕ → Text → Option (Text × Text)
unfolding prepend
cut_directive depth [] = none
cut_directive depth (c ∷ []) = none
cut_directive depth (c ∷ d ∷ s) =
    let deeper = cut_directive (suc depth) s in
    let shallower = cut_directive (depth - 1) s in
    let further = cut_directive depth (d ∷ s) in
    if eqb c b'{' && eqb d b'{'
    then prepend (c ∷ d ∷ []) deeper
    else if eqb c b'}' && eqb d b'}'
    then (if eqb depth 0 then some ([], s) else prepend (c ∷ d ∷ []) shallower)
    else prepend (c ∷ []) further

-- `isIdentChar`
unfoldable pub is_ident_char : ℕ → Bool → Bool
is_ident_char c first =
    if eqb c b'_' || leb b'a' c && leb c b'z' || leb b'A' c && leb c b'Z'
    then true
    else if first
    then false
    else leb b'0' c && leb c b'9'

-- the loop over `j`: the identifier, and what follows it
unfoldable pub take_ident : Bool → Text → Text × Text
unfolding is_ident_char
take_ident first [] = ([], [])
take_ident first (c ∷ s) =
    let (name, rest) = take_ident false s in
    if is_ident_char c first then (c ∷ name, rest) else ([], c ∷ s)

module _ {W : Type 0} (out : Outside W) (r : Resolver) where
  kv_answered : Text → KvAnswer × W → Result ResolveError Text × W
  kv_answered name (kv_found value, world) = (ok value, world)
  kv_answered name (kv_missing, world) = (err (not_defined name), world)
  kv_answered name (kv_failed, world) = (err (lookup_failed name), world)

  lookup_kv : Bool → Text → M W
  unfolding kv_answered
  lookup_kv false name world = (err (not_defined name), world)
  lookup_kv true name world = kv_answered name (out.kv_get name world)

  builtin_or : Option Text → Text → M W
  unfolding lookup_kv
  builtin_or (some value) name = pure value
  builtin_or none name = lookup_kv r.has_kv name

  -- `lookupVar`
  unfoldable pub lookup_var : Text → M W
  unfolding builtin_or
  lookup_var name = builtin_or (r.builtins name) name

  shell_answered : Text → ShellAnswer × W → Result ResolveError Text × W
  shell_answered cmd (output text, world) = (ok (trim_end (λ c. eqb c 0x0a) text), world)
  shell_answered cmd (timed_out, world) = (err (shell_timed_out cmd), world)
  shell_answered cmd (exit_error, world) = (err (shell_failed cmd), world)

  -- `runShell`
  unfoldable pub run_shell : Text → M W
  unfolding shell_answered
  run_shell cmd world = shell_answered cmd (out.shell cmd world)

  file_answered : Text → Option Text × W → Result ResolveError Text × W
  file_answered path (some text, world) = (ok text, world)
  file_answered path (none, world) = (err (unreadable path), world)

  is_empty : Text → Bool
  is_empty [] = true
  is_empty (c ∷ s) = false

  resolved_path : Text → Text
  unfolding is_empty
  resolved_path path =
      if not (out.is_abs path) && not (is_empty r.work_dir) then out.join r.work_dir path else path

  -- `readFile`
  unfoldable pub read_file : Text → M W
  unfolding file_answered resolved_path
  read_file path world = file_answered path (out.read_file (resolved_path path) world)

  -- the part of the loop of `resolveBareVars` at a dollar sign, by what follows it
  unfoldable pub expand : (Text → M W) → Text × Text → M W
  unfolding lookup_var
  expand go ([], rest) = go rest >>= λ text. pure (b'$' ∷ text)
  expand go (c ∷ name, rest) =
      lookup_var (c ∷ name) >>= λ value. (go rest >>= λ text. pure (value ++ text))

  unfoldable pub at_dollar : (Text → M W) → Text → M W
  unfolding expand take_ident
  at_dollar go [] = expand go ([], [])
  at_dollar go (c ∷ s) =
      if eqb c b'$'
      then (go s >>= λ text. pure (b'$' ∷ b'$' ∷ text))
      else expand go (take_ident true (c ∷ s))

  -- `resolveBareVars`
  unfoldable pub resolve_bare_vars : ℕ → Text → M W
  unfolding at_dollar
  resolve_bare_vars zero s = fail out_of_fuel
  resolve_bare_vars (suc fuel) [] = pure []
  resolve_bare_vars (suc fuel) (c ∷ s) =
      let plain : M W = resolve_bare_vars fuel s >>= λ text. pure (c ∷ text) in
      if eqb c b'$' then at_dollar (resolve_bare_vars fuel) s else plain

  abbrev pub bare_vars : Text → M W
  bare_vars s = resolve_bare_vars (suc (length s)) s

  -- the branch of `evalDirective` for a shell command
  unfoldable pub eval_shell : Text → M W
  unfolding run_shell
  eval_shell cmd =
      bare_vars cmd >>= λ resolved. run_shell (replace_all (b'$' ∷ b'$' ∷ []) (b'$' ∷ []) resolved)

  -- its branch for a file, which resolves the directives of the path
  unfoldable pub eval_file : (Text → M W) → Text → M W
  unfolding read_file
  eval_file go path = go path >>= λ resolved. (bare_vars resolved >>= λ final. read_file final)

  -- `evalDirective`
  unfoldable pub eval_directive : (Text → M W) → Text → M W
  unfolding lookup_var eval_shell eval_file
  eval_directive go [] = pure (open_pair ++ close_pair)
  eval_directive go (c ∷ s) =
      if eqb c b'$'
      then lookup_var (trim_space s)
      else if eqb c b'!'
      then eval_shell (trim_space s)
      else if eqb c b'@'
      then eval_file go (trim_space s)
      else pure (open_pair ++ ((c ∷ s) ++ close_pair))

  -- what the loop of `resolveStr` does with the text behind an opening pair
  unfoldable pub at_directive : (Text → M W) → Text → Option (Text × Text) → M W
  unfolding eval_directive
  at_directive go after none = go after >>= λ text. pure (open_pair ++ text)
  at_directive go after (some (body, rest)) =
      eval_directive go (trim_space body) >>= λ value. (go rest >>= λ text. pure (value ++ text))

  unfoldable pub at_open : (Text → M W) → Text → Option (Text × Text) → M W
  unfolding at_directive cut_directive
  at_open go src none = pure src
  at_open go src (some (before, after)) =
      at_directive go after (cut_directive 0 after) >>= λ text. pure (before ++ text)

  -- `resolveStr`
  unfoldable pub resolve_str : ℕ → Text → M W
  unfolding at_open
  resolve_str zero src = fail out_of_fuel
  resolve_str (suc fuel) src = at_open (resolve_str fuel) src (cut open_pair src)

  -- `Resolve`: each turn of the loop, and each nested call, has less text than the one before
  unfoldable pub resolve : Text → M W
  unfolding resolve_str
  resolve src = resolve_str (suc (length src)) src

abbrev pub task_description : Text
task_description = codes "{task_description}"

abbrev pub previous_output : Text
previous_output = codes "{previous_output}"

-- one legacy pattern: the calls of `warn`, and the text
unfoldable pub substitute : Text → Text → List Text × Text → List Text × Text
substitute pattern by (warned, content) =
    if contains pattern content
    then (warned ++ pattern ∷ [], replace_all pattern by content)
    else (warned, content)

-- `LegacySubstitute`
unfoldable pub legacy_substitute : Text → Text → Text → List Text × Text
unfolding substitute
legacy_substitute content task_desc prev_output =
    substitute previous_output prev_output (substitute task_description task_desc ([], content))
