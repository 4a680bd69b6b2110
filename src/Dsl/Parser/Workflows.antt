-- ===== src/Dsl/Parser/Workflows.antt =====
-- internal/dsl/parser.go: the body of a workflow, and the functions that parse a file.
use Prim.Native.String.{String}
use cloche.Base.{
  ℕ, zero, suc, ◌+◌, Bool, ◌&&◌, ◌||◌, none, some, [], ◌∷◌, ◌++◌, ◌==◌, if◌then◌else◌, length, Dict,
  lookup, insert, has, Result, ok, err,
}
use cloche.Workflow.{
  Location, container, host, Step, Wire, Collect, Agent, Workflow, validate_location,
}
use cloche.Dsl.Token.{TokenType, eof, ident, string, lbrace, rbrace, equals, arrow, colon, Token}
use cloche.Dsl.Lexer.{new_lexer, next_token, runes}
use cloche.Dsl.Parser.{
  Parser, ParseError, unexpected_token, unknown_field, two_locations, duplicate_agent,
  duplicate_workflow, no_workflows, out_of_fuel, P, ◌>>=◌, ◌>>◌, pure, raise, current_token,
  is_type, is_ident, goes_on, advance, expect, expect_ident, parse_list, parse_value, concat,
}
use cloche.Dsl.Parser.Blocks.{
  lift, field_key, parse_agent, parse_step, parse_token_limit, parse_wire, parse_global_wire,
  parse_collect,
}
use cloche.Dsl.Parser.Fixups.{fixups}

abbrev pub configured : String → String → Workflow → Workflow
configured key value w = record w { config = insert key value w.config }

-- `parseWorkflowField`
unfoldable pub field_value : ℕ → Token → Workflow → P Workflow
field_value n key w =
    if key.literal == "repos"
    then (do repos ← parse_list n string; pure (record w { repos = repos }))
    else if key.literal == "token-limit"
    then (do num ← parse_token_limit; pure (configured "token-limit" num w))
    else raise (unknown_field key)

unfoldable pub parse_workflow_field : ℕ → Workflow → P Workflow
parse_workflow_field n w = do key ← field_key; field_value n key w

location_block : Workflow → String
location_block w = elim (lookup "_location_block" w.config) [ some b ↦ b | none ↦ "" ]

unfoldable pub is_conflict : String → Workflow → Bool
unfolding location_block
is_conflict prefix w =
    (prefix == "host" && location_block w == "container")
    || (prefix == "container" && location_block w == "host")

unfoldable pub located : String → Workflow → Workflow
located prefix w =
    if prefix == "host"
    then configured "_location_block" "host" (record w { location = host })
    else if prefix == "container"
    then configured "_location_block" "container" w
    else w

unfoldable pub config_fields : ℕ → String → Workflow → P Workflow
config_fields zero prefix w p = err out_of_fuel
config_fields (suc n) prefix w p =
    let others : Result ParseError (Workflow × Parser) =
      (do
        key ← field_key
        val ← parse_value n
        config_fields n prefix (configured (concat prefix (concat "." key.literal)) val w))
        p in
    if goes_on rbrace p.current then others else ok (w, p)

-- `parseWorkflowConfig`
unfoldable pub parse_workflow_config : ℕ → Workflow → P Workflow
parse_workflow_config n w = do
  prefix ← current_token
  advance
  if is_conflict prefix.literal w then raise (two_locations w.name) else (do
    expect lbrace
    w' ← config_fields n prefix.literal (located prefix.literal w)
    expect rbrace
    pure w')

unfoldable pub with_agent : Agent → Workflow → P Workflow
with_agent a w =
    if has a.name w.agents
    then raise (duplicate_agent a.name)
    else pure (record w { agents = insert a.name a w.agents })

unfoldable pub with_step : Step → Workflow → Workflow
with_step step w = record w {
  steps = insert step.name step w.steps;
  entry_step = if w.entry_step == "" then step.name else w.entry_step;
}

abbrev pub with_collect : Collect → Workflow → Workflow
with_collect c w = record w { collects = w.collects ++ c ∷ [] }

abbrev pub with_wire : Wire → Workflow → Workflow
with_wire wire w = record w { wiring = w.wiring ++ wire ∷ [] }

-- The current token is an identifier and the one behind it has a type.
abbrev pub followed_by : TokenType → Parser → Bool
followed_by type p = is_type ident p.current && is_type type p.peek

unfoldable pub agent_item : ℕ → Workflow → P Workflow
unfolding with_agent
agent_item n w = do a ← parse_agent n; with_agent a w

unfoldable pub collect_item : ℕ → Workflow → P Workflow
collect_item n w = do c ← parse_collect n; pure (with_collect c w)

-- The tests in the loop of `parseWorkflow` that look at the token behind an identifier
unfoldable pub parse_directive : ℕ → Workflow → P Workflow
parse_directive n w p =
    if followed_by lbrace p
    then parse_workflow_config n w p
    else if followed_by equals p
    then parse_workflow_field n w p
    else if followed_by colon p
    then (do wire ← parse_wire; pure (with_wire wire w)) p
    else if followed_by arrow p
    then (do
      (result, target) ← parse_global_wire
      pure (configured (concat "_wire." result) target w))
        p
    else err (unexpected_token p.current)

-- `&Parser{...}`, and the two calls of `advance` that load the current token and the next one
abbrev pub loaded : String → Location → Parser
loaded input location =
    let first = next_token (new_lexer input) in
    let second = next_token (first.1) in
    record { lexer = second.1; current = first.0; peek = second.0; location = location }

-- More turns than the input has tokens.
abbrev pub enough_fuel : String → ℕ
enough_fuel input = length (runes input) + 4

unfoldable pub value_of : Result ParseError (Workflow × Parser) → Result ParseError Workflow
value_of (ok (w, p)) = ok w
value_of (err e) = err e

unfoldable pub add_workflow : Workflow → Dict Workflow → Result ParseError (Dict Workflow)
add_workflow w ws =
    if has w.name ws then err (duplicate_workflow w.name) else ok (insert w.name w ws)

unfoldable pub some_workflows :
    Result ParseError (Dict Workflow × Parser) → Result ParseError (Dict Workflow)
some_workflows (err e) = err e
some_workflows (ok ([], p)) = err no_workflows
some_workflows (ok (w ∷ ws, p)) = ok (w ∷ ws)

module _ (is_duration : String → Bool) where
  unfoldable pub step_item : ℕ → Workflow → P Workflow
  unfolding with_step
  step_item n w = do step ← parse_step is_duration n; pure (with_step step w)

  -- The chain of tests in the loop of `parseWorkflow`
  unfoldable pub parse_item : ℕ → Workflow → P Workflow
  parse_item n w p =
      if is_ident "agent" p.current && is_type ident p.peek
      then agent_item n w p
      else if is_ident "step" p.current
      then step_item n w p
      else if is_ident "collect" p.current
      then collect_item n w p
      else parse_directive n w p

  unfoldable pub items : ℕ → Workflow → P Workflow
  items zero w p = err out_of_fuel
  items (suc n) w p =
      let others : Result ParseError (Workflow × Parser) = (do w' ← parse_item n w; items n w') p in
      if goes_on rbrace p.current then others else ok (w, p)

  -- `parseWorkflow`
  unfoldable pub parse_workflow : ℕ → P Workflow
  parse_workflow n p =
      (do
        expect_ident "workflow"
        name ← expect ident
        expect lbrace
        w ← items n (record {
          name = name.literal;
          location = p.location;
          steps = [];
          agents = [];
          wiring = [];
          collects = [];
          entry_step = "";
          config = [];
          repos = [];
        })
        expect rbrace
        lift (validate_location w)
        pure (fixups w))
        p

  -- `Parse`, with the location that its options set
  unfoldable pub parse : String → Location → Result ParseError Workflow
  unfolding value_of
  parse input location = value_of (parse_workflow (enough_fuel input) (loaded input location))

  -- `ParseForHost` and `ParseForContainer`
  unfoldable pub parse_for_host : String → Result ParseError Workflow
  unfolding parse
  parse_for_host input = parse input host

  unfoldable pub parse_for_container : String → Result ParseError Workflow
  unfolding parse
  parse_for_container input = parse input container

  -- The loop of `ParseAll` and `ParseAllForHost`
  unfoldable pub workflows_from : ℕ → ℕ → Dict Workflow → P (Dict Workflow)
  workflows_from fuel zero ws p = err out_of_fuel
  workflows_from fuel (suc n) ws p =
      let others : Result ParseError (Dict Workflow × Parser) =
        (do w ← parse_workflow fuel; ws' ← lift (add_workflow w ws); workflows_from fuel n ws') p in
      if is_type eof p.current then ok (ws, p) else others

  unfoldable pub all_at : Location → String → Result ParseError (Dict Workflow)
  unfolding some_workflows
  all_at location input =
      some_workflows
        (workflows_from (enough_fuel input) (enough_fuel input) [] (loaded input location))

  -- `ParseAll`
  unfoldable pub parse_all : String → Result ParseError (Dict Workflow)
  unfolding all_at
  parse_all input = all_at container input

  -- `ParseAllForHost`
  unfoldable pub parse_all_for_host : String → Result ParseError (Dict Workflow)
  unfolding all_at
  parse_all_for_host input = all_at host input
