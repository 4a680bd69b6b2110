-- ===== src/Prompt/Assemble.antt =====
-- assemblePrompt in internal/adapters/agents/prompt/prompt.go: the template of the step, the request
-- of the user, and the results to choose from.
pub mod Request
use cloche.Base.{
  ℕ, zero, suc, ◌-◌, Bool, true, false, not, ◌&&◌, Option, none, some, List, [], ◌∷◌, ◌++◌, map,
  if◌then◌else◌, ltb, length, Result, ok, err,
}
use cloche.Prompt.Text.{Text, codes, strip_prefix, contains, text_eq, has_suffix, join_texts}
use cloche.Prompt.Template.{
  Outside, Resolver, ResolveError, resolve, task_description, legacy_substitute,
}

-- What the adapter and the step give to a prompt.
pub record Adapter : Type 0 where
  pub task_id : Text
  pub run_id : Text
  pub prev_output : Text
  pub has_kv : Bool

pub record StepConfig : Type 0 where
  pub name : Text
  pub prompt : Option Text
  pub results : List Text

pub data PromptError : Type 0 where
  template_unreadable : Text → PromptError
  template_failed : ResolveError → PromptError
  -- a slice out of bounds
  panicked : PromptError

-- the `Builtins` of the resolver
unfoldable pub builtins_of : Adapter → Text → Text → Text → Text → Option Text
unfolding text_eq
builtins_of a step_name work_dir user_prompt name =
    if text_eq name (codes "task_id")
    then some a.task_id
    else if text_eq name (codes "run_id")
    then some a.run_id
    else if text_eq name (codes "step_name")
    then some step_name
    else if text_eq name (codes "workdir")
    then some work_dir
    else if text_eq name (codes "prev_output")
    then some a.prev_output
    else if text_eq name (codes "task_description")
    then some user_prompt
    else none

unfoldable pub resolver_of : Adapter → Text → Text → Text → Resolver
resolver_of a step_name work_dir user_prompt = record {
  builtins = builtins_of a step_name work_dir user_prompt;
  has_kv = a.has_kv;
  work_dir = work_dir;
}

abbrev pub take : ℕ → Text → Text
take n [] = []
take zero (c ∷ s) = []
take (suc n) (c ∷ s) = c ∷ take n s

-- `value[6 : len(value)-2]`, by what follows the first six characters
file_slice : Option Text → Result PromptError (Option Text)
file_slice none = ok none
file_slice (some rest) =
    if ltb (length rest) 2 then err panicked else ok (some (take (length rest - 2) rest))

-- the path of `file("path")`
unfoldable pub file_argument : Text → Result PromptError (Option Text)
unfolding strip_prefix has_suffix file_slice
file_argument value =
    if has_suffix (codes "\")") value
    then file_slice (strip_prefix (codes "file(\"") value)
    else ok none

abbrev pub section_sep : Text
section_sep = 0x0a ∷ 0x0a ∷ []

abbrev pub user_request : Text
user_request = codes "## User Request" ++ 0x0a ∷ []

-- the section of the user's request, if there is one to append
unfoldable pub request_section : Text → List Text
request_section [] = []
request_section (c ∷ s) = (user_request ++ (c ∷ s)) ∷ []

unfoldable pub result_section : List Text → List Text
unfolding join_texts
result_section [] = []
result_section (r ∷ rs) =
    join_texts (0x0a ∷ []) (
      codes "## Result Selection"
      ∷ codes "When you are finished, output exactly one of the following on its own line:"
      ∷ map (λ s. codes "CLOCHE_RESULT:" ++ s) (r ∷ rs))
    ∷ []

-- a prompt, with the patterns that were warned of
abbrev pub Assembled : Type 0
Assembled = Result PromptError (List Text × Text)

-- the sections that follow the template
unfoldable pub join_sections : List Text → Text → List Text → Text
unfolding join_texts request_section result_section
join_sections parts user_prompt results =
    join_texts section_sep (parts ++ (request_section user_prompt ++ result_section results))

-- the older patterns, and whether they took up the user's request
unfoldable pub after_resolve : Adapter → StepConfig → Text → Text → List Text × Text
unfolding join_sections legacy_substitute
after_resolve a step user_prompt content =
    let (warned, final) = legacy_substitute content user_prompt a.prev_output in
    let left : Text = if contains task_description content then [] else user_prompt in
    (warned, join_sections (final ∷ []) left step.results)

resolved : {W : Type 0} → Adapter → StepConfig → Text → Result ResolveError Text × W → Assembled × W
unfolding after_resolve
resolved a step user_prompt (err e, world) = (err (template_failed e), world)
resolved a step user_prompt (ok content, world) =
    (ok (after_resolve a step user_prompt content), world)

module _ {W : Type 0} (out : Outside W) (a : Adapter) (step : StepConfig)
    (work_dir user_prompt : Text) where
  -- the template behind the call of `resolveContent`
  unfoldable pub with_template : Text → W → Assembled × W
  unfolding resolver_of resolved
  with_template content world =
      resolved a step user_prompt
        (resolve out (resolver_of a step.name work_dir user_prompt) content world)

  from_file : Text → Option Text × W → Assembled × W
  unfolding with_template
  from_file path (none, world) = (err (template_unreadable path), world)
  from_file path (some content, world) = with_template content world

  from_value : Text → Result PromptError (Option Text) → W → Assembled × W
  unfolding from_file
  from_value value (err e) world = (err e, world)
  from_value value (ok none) world = with_template value world
  from_value value (ok (some path)) world =
      from_file path (out.read_file (out.join work_dir path) world)

  from_prompt : Option Text → W → Assembled × W
  unfolding from_value file_argument
  from_prompt none world = (ok ([], join_sections [] user_prompt step.results), world)
  from_prompt (some value) world = from_value value (file_argument value) world

  -- `assemblePrompt`; `user_prompt` is what `readUserPrompt` returned
  unfoldable pub assemble_prompt : W → Assembled × W
  unfolding from_prompt
  assemble_prompt = from_prompt step.prompt
