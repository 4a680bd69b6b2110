-- ===== src/Dsl/Parser/Blocks.antt =====
-- internal/dsl/parser.go: the blocks inside a workflow: agents, steps, wires and collects.
use Prim.Native.String.{String}
use cloche.Base.{
  ℕ, zero, suc, ◌+◌, Bool, true, false, not, ◌&&◌, Option, none, some, List, [], ◌∷◌, ◌++◌, ◌==◌,
  if◌then◌else◌, eqb, Dict, lookup, insert, has, Result, ok, err,
}
use cloche.Base.Int.{ℤ, negsuc, ltz, parse_int}
use cloche.Workflow.{
  StepType, agent, script, workflow, human, unset, Step, Wire, CollectMode, collect_all,
  collect_any, WireCondition, Collect, Agent,
}
use cloche.Dsl.Token.{
  illegal, ident, int, string, lbrace, rbrace, lbracket, lparen, rparen, comma, equals, arrow,
  colon, Token,
}
use cloche.Dsl.Parser.{
  Parser, ParseError, bad_token_limit, token_limit_not_int, max_attempts_not_int,
  unknown_agent_field, command_missing, several_kinds, no_kind, poll_without_interval, bad_interval,
  bad_collect_mode, out_of_fuel, P, ◌>>=◌, ◌>>◌, pure, raise, current_token, is_type, goes_on,
  advance, expect, skip_if, parse_list, parse_value, concat,
}

-- `if test { ... } else { ... }`, with a test of the parser's tokens
abbrev pub branch {ℓ} : {A : Type ℓ} → (Parser → Bool) → P A → P A → P A
branch test holds fails p = elim (test p) [ true ↦ holds p | false ↦ fails p ]

abbrev pub lift {ℓ} : {A : Type ℓ} → Result ParseError A → P A
lift (ok a) p = ok (a, p)
lift (err e) p = err e

-- The key and the equals sign of `key = value`.
unfoldable pub field_key : P Token
field_key = do key ← expect ident; expect equals; pure key

-- The loop of `parseAgent`
unfoldable pub with_field : Agent → Token → String → P Agent
with_field a key val =
    if key.literal == "command"
    then pure (record a { command = val })
    else if key.literal == "args"
    then pure (record a { args = val })
    else raise (unknown_agent_field key)

unfoldable pub agent_fields : ℕ → Agent → P Agent
agent_fields zero a p = err out_of_fuel
agent_fields (suc n) a p =
    let others : Result ParseError (Agent × Parser) =
      (do key ← field_key; val ← parse_value n; a' ← with_field a key val; agent_fields n a') p in
    if goes_on rbrace p.current then others else ok (a, p)

-- `parseAgent`
unfoldable pub parse_agent : ℕ → P Agent
parse_agent n = do
  advance
  name ← expect ident
  expect lbrace
  a ← agent_fields n (record { name = name.literal; command = ""; args = "" })
  expect rbrace
  if a.command == "" then raise (command_missing a.name) else pure a

-- A minus sign is an illegal token; the flag says that there was one.
unfoldable pub minus_sign : P Bool
minus_sign =
    branch (λ p. is_type illegal p.current && p.current.literal == "-") (do advance; pure true)
      (pure false)

at_least_minus_one : Option ℤ → Bool
at_least_minus_one none = false
at_least_minus_one (some n) = not (ltz n (negsuc 0))

unfoldable pub checked_limit : String → P String
unfolding at_least_minus_one parse_int
checked_limit num =
    if at_least_minus_one (parse_int num) then pure num else raise (bad_token_limit num)

-- The value of `token-limit`, in a step and in a workflow
unfoldable pub parse_token_limit : P String
parse_token_limit = do
  negative ← minus_sign
  tok ← current_token
  if is_type int tok
      then (do advance; checked_limit (if negative then concat "-" tok.literal else tok.literal))
      else raise (token_limit_not_int tok)

-- `strings.Join(values, ",")`
unfoldable pub join_comma : List String → String
join_comma [] = ""
join_comma (v ∷ []) = v
join_comma (v ∷ w ∷ vs) = concat v (concat "," (join_comma (w ∷ vs)))

abbrev pub with_config : String → Step → String → Step
with_config key step val = record step { config = insert key val step.config }

unfoldable pub attempts_or_value : ℕ → String → P String
attempts_or_value n key =
    branch (λ p. key == "max_attempts" && not (is_type int p.current))
      (do tok ← current_token; raise (max_attempts_not_int tok)) (parse_value n)

-- What stands behind `key =` in a step.
unfoldable pub step_value : ℕ → String → Step → P Step
unfolding join_comma
step_value n key step =
    if key == "results"
    then (do results ← parse_list n ident; pure (record step { results = results }))
    else branch (λ p. is_type lbracket p.current)
        (do values ← parse_list n string; pure (with_config key step (join_comma values)))
        (if key == "token-limit"
          then (do num ← parse_token_limit; pure (with_config key step num))
          else (do val ← attempts_or_value n key; pure (with_config key step val)))

unfoldable pub prefixed : String → String → String
prefixed prefix key = if prefix == "" then key else concat prefix (concat "." key)

-- `parseStepField` behind the key: a sub-block, whose loop is the first argument, or a value.
unfoldable pub field_body : (String → Step → P Step) → ℕ → String → Step → P Step
field_body fields n key step =
    branch (λ p. is_type lbrace p.current)
      (do advance; inner ← fields key step; advance; pure inner)
      (do expect equals; step_value n key step)

-- The loop over the fields of a step, and of each of its sub-blocks, with `parseStepField` as its body
unfoldable pub step_fields : ℕ → String → Step → P Step
step_fields zero prefix step p = err out_of_fuel
step_fields (suc n) prefix step p = elim (goes_on rbrace p.current) [
  | true ↦
      (do
        tok ← expect ident
        step' ← field_body (step_fields n) n (prefixed prefix tok.literal) step
        step_fields n prefix step')
        p
  | false ↦ ok (step, p)
]

unfoldable pub count_kinds : Dict String → ℕ
count_kinds config =
    (if has "prompt" config then 1 else 0)
    + (if has "run" config then 1 else 0)
    + (if has "workflow_name" config then 1 else 0)
    + (if has "poll" config then 1 else 0)

unfoldable pub config_at : String → Dict String → String
config_at key config = elim (lookup key config) [ some v ↦ v | none ↦ "" ]

-- The type that `parseStep` infers from what is configured. `time.ParseDuration` is a parameter:
-- whether it takes a string.
unfoldable pub infer_type : (String → Bool) → Step → Result ParseError StepType
unfolding count_kinds config_at
infer_type is_duration step =
    if eqb (count_kinds step.config) 0
    then err (no_kind step.name)
    else if not (eqb (count_kinds step.config) 1)
    then err (several_kinds step.name)
    else if has "prompt" step.config
    then ok agent
    else if has "run" step.config
    then ok script
    else if has "workflow_name" step.config
    then ok workflow
    else if config_at "interval" step.config == ""
    then err (poll_without_interval step.name)
    else if is_duration (config_at "interval" step.config)
    then ok human
    else err (bad_interval step.name (config_at "interval" step.config))

-- `parseStep`
unfoldable pub parse_step : (String → Bool) → ℕ → P Step
parse_step is_duration n = do
  advance
  name ← expect ident
  expect lbrace
  step ← step_fields n "" (record { name = name.literal; type = unset; results = []; config = [] })
  expect rbrace
  type ← lift (infer_type is_duration step)
  pure (record step { type = type })

-- `parseWire`
unfoldable pub parse_wire : P Wire
parse_wire = do
  source ← current_token
  advance
  expect colon
  result ← expect ident
  expect arrow
  target ← expect ident
  pure (record {
    source = source.literal;
    result = result.literal;
    target = target.literal;
    implicit = false;
  })

-- `parseGlobalWire`
unfoldable pub parse_global_wire : P (String × String)
parse_global_wire = do
  result ← current_token
  advance
  expect arrow
  target ← expect ident
  pure (result.literal, target.literal)

unfoldable pub parse_mode : Token → P CollectMode
parse_mode tok =
    if tok.literal == "all"
    then pure collect_all
    else if tok.literal == "any"
    then pure collect_any
    else raise (bad_collect_mode tok)

unfoldable pub collect_conditions : ℕ → List WireCondition → P (List WireCondition)
collect_conditions zero cs p = err out_of_fuel
collect_conditions (suc n) cs p =
    let others : Result ParseError (List WireCondition × Parser) =
      (do
        step ← expect ident
        expect colon
        result ← expect ident
        skip_if comma
        collect_conditions n (cs ++ record { step = step.literal; result = result.literal } ∷ []))
        p in
    if goes_on rparen p.current then others else ok (cs, p)

-- `parseCollect`
unfoldable pub parse_collect : ℕ → P Collect
parse_collect n = do
  advance
  tok ← expect ident
  mode ← parse_mode tok
  expect lparen
  conditions ← collect_conditions n []
  expect rparen
  expect arrow
  target ← expect ident
  pure (record { mode = mode; conditions = conditions; target = target.literal })
