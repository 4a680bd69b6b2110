-- ===== src/Tests/Prompt.antt =====
-- The theorems about the prompts of agents on concrete data.
use cloche.Base.{
  not, ◌&&◌, ℕ, ◌+◌, Bool, true, false, ◌≡◌, refl, none, some, List, [], ◌∷◌, ◌++◌, All, any,
  if◌then◌else◌, eqb, ok, arith,
}
use cloche.Base.Int.{pos, parse_int}
use cloche.Prompt.Text.{Text, codes, contains, cut, trim_space, trim_end, replace_all}
use cloche.Prompt.Template.{
  eval_directive, Outside, Resolver, kv_found, output, resolve, resolve_bare_vars, eval_shell,
  legacy_substitute, task_description, previous_output,
}
use cloche.Prompt.Template.Ends.{Ends, resolve-Ends}
use cloche.Prompt.Template.Written.{
  Segment, text, directive, print, IsBalanced, char, nothing, IsWritten, evaluate, resolve-print,
}
use cloche.Prompt.Assemble.{
  Assembled, builtins_of, Adapter, StepConfig, resolver_of, file_argument, join_sections,
  assemble_prompt,
}
use cloche.Prompt.Assemble.Request.{request_part, result_part, assemble_prompt-evaluate}
use cloche.Prompt.Commands.{
  exited_nonzero, try_buffered, try_streaming, Tried, step_result, commands_failed, run_commands,
  execute, count_after,
}
use cloche.Prompt.Commands.Results
use cloche.Prompt.Commands.Results.{AllFail, has_stdout, run_commands-first}
use cloche.Prompt.Commands.Attempts.{
  IsFailure, executions, count_ran, attempts_left, executions_failing,
}

-- A world that counts the calls of the shell, which prints the command that it was given.
abbrev outside : Outside ℕ
outside = record {
  kv_get = λ name world. (kv_found (codes "kv"), world);
  shell = λ cmd world. (output (cmd ++ 0x0a ∷ []), world + 1);
  read_file = λ path world. (none, world);
  is_abs = λ path. false;
  join = λ dir path. dir ++ (b'/' ∷ path);
}

abbrev resolver : Resolver
resolver = record {
  builtins = λ name. if contains (codes "id") name then some (codes "a$$b") else none;
  has_kv = true;
  work_dir = [];
}

-- The value of a variable holds two dollar signs, of which the shell gets one.
eval_shell_dollars : eval_shell outside resolver (codes "echo $id") 0 ≡ (ok (codes "echo a$b"), 1)
unfolding eval_shell contains replace_all resolve_bare_vars trim_end
eval_shell_dollars = refl

-- A task whose text names the older pattern of the output takes the output up.
legacy_substitute_twice :
    (legacy_substitute (codes "{task_description}") (codes "see {previous_output}") (codes "log")).1
    ≡ codes "see log"
unfolding legacy_substitute contains replace_all
legacy_substitute_twice = refl

resolve_unmatched : resolve outside resolver (codes "a {{ $id") 0 ≡ (ok (codes "a {{ $id"), 0)
unfolding resolve cut
resolve_unmatched = refl

resolve-Ends_example : Ends (resolve outside resolver (codes "run {{! make {{ x }} }} {{"))
resolve-Ends_example = resolve-Ends outside resolver (codes "run {{! make {{ x }} }} {{")

abbrev segments : List Segment
segments = text (codes "t ") ∷ directive (codes "$id") ∷ directive (codes "!ls") ∷ []

abbrev no_braces : Text → Bool
no_braces [] = true
no_braces (c ∷ s) = not (eqb c b'{') && not (eqb c b'}') && no_braces s

no_braces-IsBalanced : (s : Text) → no_braces s ≡ true → IsBalanced s
no_braces-IsBalanced [] h = nothing
no_braces-IsBalanced (c ∷ s) h =
    char c s (λ e. ground arith) (λ e. ground arith) (no_braces-IsBalanced s (ground arith))

segments_AreWritten : All IsWritten segments
segments_AreWritten = (
  (λ e. omega arith, omega arith),
  (no_braces-IsBalanced (codes "$id") refl, (no_braces-IsBalanced (codes "!ls") refl, tt)),
)

resolve-print_example :
    resolve outside resolver (print segments) 0 ≡ evaluate outside resolver segments 0
resolve-print_example = resolve-print outside resolver segments 0 segments_AreWritten

abbrev adapter : Adapter
adapter = record { task_id = codes "t1"; run_id = codes "r1"; prev_output = []; has_kv = false }

abbrev request : List Segment
request = directive (codes " $task_description ") ∷ []

abbrev with_request : StepConfig
with_request = record { name = codes "build"; prompt = some (print request); results = [] }

request_AreWritten : All IsWritten request
request_AreWritten = (no_braces-IsBalanced (codes " $task_description ") refl, tt)

request_file : file_argument (print request) ≡ ok none
unfolding file_argument
request_file = refl

request_evaluates :
    evaluate outside (resolver_of adapter (codes "build") (codes "/w") (codes "Fix it")) request 0
    ≡ (ok (codes "Fix it"), 0)
unfolding evaluate eval_directive trim_space resolver_of builtins_of
request_evaluates = refl

request_absent :
    (contains task_description (codes "Fix it") ≡ false)
    × (contains previous_output (codes "Fix it") ≡ false)
unfolding contains
request_absent = (refl, refl)

assemble_prompt-evaluate_example :
    assemble_prompt outside adapter with_request (codes "/w") (codes "Fix it") 0
    ≡ (ok ([], codes "Fix it" ++ (request_part (codes "Fix it") ++ result_part [])), 0)
assemble_prompt-evaluate_example =
    assemble_prompt-evaluate outside adapter with_request (codes "/w") (codes "Fix it") request
      (codes "Fix it") 0 0 refl request_file request_AreWritten request_evaluates request_absent.0
      request_absent.1

-- The request stands in the prompt twice.
join_sections_twice :
    join_sections (codes "Fix it" ∷ []) (codes "Fix it") []
    ≡ codes "Fix it" ++ (0x0a ∷ 0x0a ∷ codes "## User Request" ++ 0x0a ∷ codes "Fix it")
unfolding join_sections
join_sections_twice = refl

abbrev crashed : Tried
crashed = record { result = codes "fail"; stdout = none; failed = true }

abbrev succeeded : Tried
succeeded = record { result = codes "success"; stdout = some (codes "ok"); failed = false }

-- The world counts the commands; the second one decides.
abbrev try : Text → Text → ℕ → Tried × ℕ
try c prompt world = (if eqb world 1 then succeeded else crashed, world + 1)

one_fails : AllFail try (codes "go") (codes "claude" ∷ []) 0 (crashed ∷ []) 1
one_fails = Results.fails (codes "claude") [] crashed [] 0 1 1 refl refl (Results.nothing 1)

run_commands-first_example :
    ((c : Text) (more : List Text) (t : Tried) (world' : ℕ)
      → try c (codes "go") 1 ≡ (t, world')
      → t.failed ≡ false
      → run_commands try (codes "claude" ∷ c ∷ more) (ok ([], codes "go"), 0)
        ≡ (step_result t.result, world'))
    × ((◌≡◌ {A = List Text} (codes "claude" ∷ []) [] → ⊥)
        → run_commands try (codes "claude" ∷ []) (ok ([], codes "go"), 0) ≡ (
          (if any has_stdout (crashed ∷ []) then step_result (codes "fail") else commands_failed),
          1,
        ))
run_commands-first_example =
    run_commands-first try (codes "go") [] (codes "claude" ∷ []) (crashed ∷ []) 0 1 one_fails

-- An agent that never starts, with two attempts.
abbrev never : Text → Text → ℕ → Tried × ℕ
never c prompt world = (crashed, world + 1)

abbrev prompted : ℕ → Assembled × ℕ
prompted world = (ok ([], codes "go"), world)

two_attempts : parse_int "2" ≡ some (pos 2)
unfolding parse_int
two_attempts = refl

never_fails : All IsFailure (executions never (codes "claude" ∷ []) (some "2") prompted 3 0 0)
unfolding execute parse_int count_after
never_fails = (refl, (refl, (refl, tt)))

executions_failing_example :
    count_ran (executions never (codes "claude" ∷ []) (some "2") prompted 3 0 0)
    ≡ attempts_left 2 0 3
executions_failing_example =
    executions_failing never (codes "claude" ∷ []) (some "2") prompted 2 two_attempts 3 0 0
      never_fails

-- A command that fails and writes nothing fails the step where its output is buffered, and is an
-- error where it is streamed.
buffered_failure :
    run_commands
      (λ c prompt (world : ℕ). (try_buffered [] exited_nonzero, world))
      (codes "sh" ∷ [])
      (ok ([], codes "go"), 0)
    ≡ (step_result (codes "fail"), 0)
unfolding run_commands try_buffered
buffered_failure = refl

streamed_failure :
    run_commands
      (λ c prompt (world : ℕ). (try_streaming (λ line. line) [] exited_nonzero, world))
      (codes "sh" ∷ [])
      (ok ([], codes "go"), 0)
    ≡ (commands_failed, 0)
unfolding run_commands try_streaming contains
streamed_failure = refl
