-- ===== src/Prompt/Commands.antt =====
-- Execute in internal/adapters/agents/prompt/prompt.go: the limit of attempts, the chain of agent
-- commands, and what they say together. Token usage and the log files are left out.
pub mod Results
pub mod Attempts
use cloche.Base.{
  ℕ, zero, suc, ◌+◌, String, Bool, true, false, not, ◌&&◌, ◌||◌, Option, none, some, List, [], ◌∷◌,
  ◌++◌, if◌then◌else◌, eqb, Result, ok, err,
}
use cloche.Base.Int.{ℤ, pos, ltz, parse_int}
use cloche.Prompt.Text.{
  Text, codes, is_space, trim_space, trim_end, strip_prefix, contains, text_eq, join_texts,
}
use cloche.Prompt.Assemble.{PromptError, Assembled}

-- how a command came to its end; an error that is no `*exec.ExitError` is a failed start
pub data RunEnd : Type 0 where
  exited_zero exited_nonzero not_started : RunEnd

-- What `tryCommand` returns: `stdout` is none for a nil slice, and `failed` says that the next
-- command may be tried.
pub record Tried : Type 0 where
  pub result : Text
  pub stdout : Option Text
  pub failed : Bool

unfoldable pub push_line : ℕ → List Text → List Text
push_line c [] = (c ∷ []) ∷ []
push_line c (l ∷ ls) = (c ∷ l) ∷ ls

-- `bytes.Split(output, "\n")`
unfoldable pub split_lines : Text → List Text
unfolding push_line
split_lines [] = [] ∷ []
split_lines (c ∷ s) =
    let lines = split_lines s in if eqb c 0x0a then [] ∷ lines else push_line c lines

-- the name behind `CLOCHE_RESULT:`, if a line is a marker
unfoldable pub marker : Text → Option Text
unfolding strip_prefix trim_space
marker line = strip_prefix (codes "CLOCHE_RESULT:") (trim_space line)

-- the loop of `ExtractResult`: the last marker, and the lines that are none
unfoldable pub scan_lines : List Text → Option Text × List Text
scan_lines [] = (none, [])
scan_lines (l ∷ ls) =
    let (later, clean) = scan_lines ls in
    elim (marker l) [
      | none ↦ (later, l ∷ clean)
      | some name ↦ (elim later [ none ↦ some name | some other ↦ some other ], clean)
    ]

closed_by_newline : Text → Text
closed_by_newline [] = []
closed_by_newline (c ∷ s) = (c ∷ s) ++ 0x0a ∷ []

-- `ExtractResult` of internal/protocol/result.go; `none` where no marker was found
unfoldable pub extract_result : Text → Option Text × Text
unfolding split_lines marker scan_lines closed_by_newline
extract_result output =
    let (found, clean) = scan_lines (split_lines output) in
    (found, closed_by_newline (trim_end (λ c. eqb c 0x0a) (join_texts (0x0a ∷ []) clean)))

is_blank : Text → Bool
is_blank [] = true
is_blank (c ∷ s) = false

or_else : Option Text → Text → Text
or_else none d = d
or_else (some name) d = name

abbrev pub content : Option Text → Text
content none = []
content (some s) = s

error_marker : Text
error_marker = codes "\"error_during_execution\""

unfoldable pub nonzero_result : Option Text → Option Text → Tried
nonzero_result none stdout = record { result = codes "fail"; stdout = stdout; failed = true }
nonzero_result (some name) stdout = record { result = name; stdout = stdout; failed = false }

-- `classifyResult`; the slice is none where it is nil
unfoldable pub classify_result : Option Text → RunEnd → Tried
unfolding nonzero_result or_else extract_result is_blank error_marker
classify_result stdout not_started = record { result = []; stdout = none; failed = true }
classify_result stdout exited_nonzero = nonzero_result (extract_result (content stdout)).0 stdout
classify_result stdout exited_zero =
    if is_blank (trim_space (content stdout)) || contains error_marker (content stdout)
    then record { result = codes "fail"; stdout = stdout; failed = true }
    else record {
      result = or_else (extract_result (content stdout)).0 (codes "success");
      stdout = stdout;
      failed = false;
    }

-- `tryCommand` where the output is not streamed: once the command was started its output is copied
-- into the buffer, whose slice is then not nil, also where it is empty
unfoldable pub try_buffered : Text → RunEnd → Tried
unfolding classify_result
try_buffered output end = classify_result (some output) end

-- the lines of the output, each with its newline
unfoldable pub raw_output : List Text → Text
raw_output [] = []
raw_output (l ∷ ls) = l ++ (0x0a ∷ raw_output ls)

unfoldable pub stream_text : (Text → Text) → List Text → Text
stream_text extract [] = []
stream_text extract (l ∷ ls) = extract l ++ stream_text extract ls

-- the slice of a buffer that was only written to piece by piece
unfoldable pub bytes_of : Text → Option Text
bytes_of [] = none
bytes_of (c ∷ s) = some (c ∷ s)

-- `tryCommand` where the output is streamed: `lines` are those of the scanner, and `extract` is
-- `extractStreamText`
unfoldable pub try_streaming : (Text → Text) → List Text → RunEnd → Tried
unfolding classify_result raw_output stream_text bytes_of is_blank error_marker
try_streaming extract lines not_started = record { result = []; stdout = none; failed = true }
try_streaming extract lines end =
    let raw = raw_output lines in
    let text = stream_text extract lines in
    if contains error_marker raw
    then record { result = codes "fail"; stdout = bytes_of raw; failed = true }
    else record (classify_result (bytes_of (if is_blank (trim_space text) then raw else text))
        end) { stdout = bytes_of raw }

-- The variables of the loop over the commands.
pub record Chain : Type 0 where
  pub last_result : Text
  pub last_stdout : Option Text
  pub last_failed : Bool
  pub ran : Bool

abbrev pub is_nil : Option Text → Bool
is_nil none = true
is_nil (some s) = false

abbrev pub no_chain : Chain
no_chain = record { last_result = []; last_stdout = none; last_failed = false; ran = false }

unfoldable pub note : Tried → Chain → Chain
note t s = record {
  last_result = t.result;
  last_stdout = t.stdout;
  last_failed = t.failed;
  ran = s.ran || t.failed && not (is_nil t.stdout);
}

-- What one execution of a step comes to.
pub data Executed : Type 0 where
  gave_up commands_failed : Executed
  prompt_failed : PromptError → Executed
  step_result : Text → Executed

-- what is made of the variables behind the loop
unfoldable pub conclude : Chain → Executed
conclude s =
    if s.last_failed && (not s.ran && is_nil s.last_stdout)
    then commands_failed
    else step_result (if s.last_failed then codes "fail" else s.last_result)

-- the test of `max_attempts` against the count of attempts
unfoldable pub is_exhausted : Option ℤ → ℕ → Bool
is_exhausted none count = false
is_exhausted (some limit) count = not (ltz (pos count) limit)

abbrev pub limit_of : Option String → Option ℤ
limit_of none = none
limit_of (some raw) = parse_int raw

-- a success resets the count
unfoldable pub count_after : Executed → ℕ → ℕ
unfolding text_eq
count_after (step_result result) count = if text_eq result (codes "success") then 0 else count
count_after _ count = count

-- The commands act on a world that is not modelled: `try` runs one of them on a prompt.
module _ {W : Type 0} (try : Text → Text → W → Tried × W) where
  -- the loop over the commands, which a definitive result leaves
  unfoldable pub run_chain : List Text → Text → Chain → W → Chain × W
  unfolding note
  run_chain [] prompt s world = (s, world)
  run_chain (c ∷ cs) prompt s world =
      let (t, world') = try c prompt world in
      let rest = run_chain cs prompt (note t s) world' in
      if t.failed then rest else (note t s, world')

  unfoldable pub run_commands : List Text → Assembled × W → Executed × W
  unfolding run_chain conclude
  run_commands commands (err e, world) = (prompt_failed e, world)
  run_commands commands (ok (warned, prompt), world) =
      let (s, world') = run_chain commands prompt no_chain world in (conclude s, world')

  -- `Execute`, with the count of attempts of the step, whose file is taken to be read and written
  -- without an error; in resume mode the prompt is `retry`
  unfoldable pub execute :
      List Text → Option String → (W → Assembled × W) → ℕ → W → Executed × (ℕ × W)
  unfolding run_commands is_exhausted count_after
  execute commands max_attempts assemble count world =
      let (done, world') = run_commands commands (assemble world) in
      if is_exhausted (limit_of max_attempts) count
      then (gave_up, (count, world))
      else (done, (count_after done (count + 1), world'))
