-- ===== src/Prompt/Assemble/Request.antt =====
-- assemblePrompt: where the request of the user stands in the prompt.
use mathlib.Core.List.{append-nil, append_assoc}
use cloche.Base.{◌++◌, map, sym, ◌≡◌, refl, ap, ◌∙◌, false, none, some, List, [], ◌∷◌, ok, All}
use cloche.Prompt.Text.{Text, codes, contains, join_texts}
use cloche.Prompt.Template.{
  Outside, task_description, previous_output, legacy_substitute, substitute,
}
use cloche.Prompt.Template.Written.{Segment, print, IsWritten, evaluate, resolve-print}
use cloche.Prompt.Assemble.{
  Adapter, section_sep, user_request, request_section, result_section, StepConfig, resolver_of,
  file_argument, join_sections, after_resolve, resolved, with_template, from_value, from_prompt,
  assemble_prompt,
}

-- The parts of a prompt behind the text of the template, each of which may be missing, and the line
-- for each result.
abbrev pub request_part : Text → Text
request_part [] = []
request_part (c ∷ s) = 0x0a ∷ 0x0a ∷ codes "## User Request" ++ (0x0a ∷ c ∷ s)

abbrev pub markers : List Text → Text
markers [] = []
markers (r ∷ rs) = 0x0a ∷ codes "CLOCHE_RESULT:" ++ (r ++ markers rs)

abbrev pub result_part : List Text → Text
result_part [] = []
result_part (r ∷ rs) =
    0x0a ∷ 0x0a ∷ codes "## Result Selection"
    ++ (0x0a ∷ codes "When you are finished, output exactly one of the following on its own line:"
        ++ markers (r ∷ rs))

join_texts-markers :
    (t : Text) (rs : List Text)
    → join_texts (0x0a ∷ []) (t ∷ map (λ s. codes "CLOCHE_RESULT:" ++ s) rs) ≡ t ++ markers rs
unfolding join_texts
join_texts-markers t [] = sym (append-nil t)
join_texts-markers t (r ∷ rs) =
    ap (λ x. t ++ (0x0a ∷ x))
      (join_texts-markers (codes "CLOCHE_RESULT:" ++ r) rs
        ∙ append_assoc (codes "CLOCHE_RESULT:") r (markers rs))

join_texts-result_section :
    (t : Text) (rs : List Text)
    → join_texts section_sep (t ∷ result_section rs) ≡ t ++ result_part rs
unfolding join_texts result_section
join_texts-result_section t [] = sym (append-nil t)
join_texts-result_section t (r ∷ rs) =
    ap (λ x. t ++ (0x0a ∷ 0x0a ∷ codes "## Result Selection" ++ (0x0a ∷ x)))
      (join_texts-markers
        (codes "When you are finished, output exactly one of the following on its own line:")
        (r ∷ rs))

join_sections-parts :
    (content user_prompt : Text) (results : List Text)
    → join_sections (content ∷ []) user_prompt results
      ≡ content ++ (request_part user_prompt ++ result_part results)
unfolding join_sections request_section
join_sections-parts content [] results = join_texts-result_section content results
join_sections-parts content (c ∷ s) results =
    unfold join_texts in
    ap (λ x. content ++ (0x0a ∷ 0x0a ∷ x))
      (join_texts-result_section (user_request ++ (c ∷ s)) results)

substitute-absent :
    (pattern by content : Text)
    → contains pattern content ≡ false
    → substitute pattern by ([], content) ≡ ([], content)
unfolding substitute
substitute-absent pattern by content h = rw h refl

legacy_substitute-absent :
    (content task_desc prev_output : Text)
    → contains task_description content ≡ false
    → contains previous_output content ≡ false
    → legacy_substitute content task_desc prev_output ≡ ([], content)
unfolding legacy_substitute
legacy_substitute-absent content task_desc prev_output h k =
    ap (substitute previous_output prev_output)
      (substitute-absent task_description task_desc content h)
    ∙ substitute-absent previous_output prev_output content k

after_resolve-absent :
    (a : Adapter) (step : StepConfig) (user_prompt content : Text)
    → contains task_description content ≡ false
    → contains previous_output content ≡ false
    → after_resolve a step user_prompt content
      ≡ ([], join_sections (content ∷ []) user_prompt step.results)
unfolding after_resolve
after_resolve-absent a step user_prompt content h k =
    rw (legacy_substitute-absent content user_prompt a.prev_output h k, h) refl

-- Take a step whose template stands in the step itself (it is no reference to a file) and is written
-- as plain texts and directives with balanced bodies, and let its directives come to an end without
-- an error, in a text that has neither of the patterns {task_description} and {previous_output}.
-- Then the prompt is that text, then an empty line and the section with the request of the user if
-- that is not empty, then an empty line and the section with one line for each result if there are
-- results, and no warning is given. The request follows also where a directive of the template has
-- put it in already.
pub assemble_prompt-evaluate :
    {W : Type 0} (out : Outside W) (a : Adapter) (step : StepConfig) (work_dir user_prompt : Text)
    (segments : List Segment) (content : Text) (world world' : W)
    → step.prompt ≡ some (print segments)
    → file_argument (print segments) ≡ ok none
    → All IsWritten segments
    → evaluate out (resolver_of a step.name work_dir user_prompt) segments world
      ≡ (ok content, world')
    → contains task_description content ≡ false
    → contains previous_output content ≡ false
    → assemble_prompt out a step work_dir user_prompt world
      ≡ (ok ([], content ++ (request_part user_prompt ++ result_part step.results)), world')
unfolding assemble_prompt resolved with_template from_prompt
assemble_prompt-evaluate out a step work_dir user_prompt segments content world world' e f w v h k =
    let r = resolver_of a step.name work_dir user_prompt in
    ap (λ x. from_prompt out a step work_dir user_prompt x world) e
    ∙ ap (λ x. from_value out a step work_dir user_prompt (print segments) x world) f
    ∙ ap (resolved a step user_prompt) (resolve-print out r segments world w ∙ v)
    ∙ ap (λ x. (ok x, world'))
        (after_resolve-absent a step user_prompt content h k
          ∙ ap (λ x. ([], x)) (join_sections-parts content user_prompt step.results))
