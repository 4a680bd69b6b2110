-- ===== src/Dsl/Parser/Fuel/Workflows.antt =====
-- The fuel that the parser of a file is given is enough.
use Prim.Native.Nat.{◌≤◌, ◌<◌}
use Prim.Native.String.{String}
use cloche.Base.{ℕ, zero, suc, Bool, ◌≡◌, [], err, Dict, arith}
use cloche.Workflow.{Location, container, host, Agent, Workflow, validate_location}
use cloche.Dsl.Token.{ident, string, lbrace, rbrace, Token}
use cloche.Dsl.Lexer.{new_lexer, next_token}
use cloche.Dsl.Lexer.Progress.{length-next_token}
use cloche.Dsl.Parser.{Parser, out_of_fuel}
use cloche.Dsl.Parser.Blocks.{lift}
use cloche.Dsl.Parser.Workflows.{
  field_value, parse_workflow_field, config_fields, parse_workflow_config, with_agent, agent_item,
  collect_item, step_item, parse_directive, parse_item, items, parse_workflow, loaded, enough_fuel,
  parse, add_workflow, workflows_from, all_at, parse_all, parse_all_for_host,
}
use cloche.Dsl.Parser.Fuel.{
  measure, Runs, advance-Runs, expect-Runs, expect_ident-Runs, parse_list-Runs, parse_value-Runs,
}
use cloche.Dsl.Parser.Fuel.Blocks.{
  field_key-Runs, parse_agent-Runs, parse_token_limit-Runs, parse_step-Runs, parse_wire-Runs,
  parse_global_wire-Runs, parse_collect-Runs,
}

field_value-Runs :
    (n : ℕ) (key : Token) (w : Workflow) (p : Parser)
    → measure p < n
    → Runs (measure p) 0 (field_value n key w p)
unfolding field_value
field_value-Runs n key w p k = grind (arith, parse_list-Runs n string p, parse_token_limit-Runs p)

parse_workflow_field-Runs :
    (n : ℕ) (w : Workflow) (p : Parser)
    → measure p ≤ n
    → Runs (measure p) 1 (parse_workflow_field n w p)
unfolding parse_workflow_field
parse_workflow_field-Runs n w p k = grind (arith, field_key-Runs p, field_value-Runs n)

config_fields-Runs :
    (n : ℕ) (prefix : String) (w : Workflow) (p : Parser)
    → measure p < n
    → Runs (measure p) 0 (config_fields n prefix w p)
unfolding config_fields
config_fields-Runs zero prefix w p k = absurd (omega (arith, k))
config_fields-Runs (suc n) prefix w p k =
    grind (arith, field_key-Runs p, parse_value-Runs n, config_fields-Runs n prefix)

parse_workflow_config-Runs :
    (n : ℕ) (w : Workflow) (p : Parser)
    → measure p ≤ n
    → Runs (measure p) 1 (parse_workflow_config n w p)
unfolding parse_workflow_config
parse_workflow_config-Runs n w p k =
    grind (arith, advance-Runs p, expect-Runs lbrace, config_fields-Runs n, expect-Runs rbrace)

parse_directive-Runs :
    (n : ℕ) (w : Workflow) (p : Parser) → measure p ≤ n → Runs (measure p) 1 (parse_directive n w p)
unfolding parse_directive
parse_directive-Runs n w p k = grind (
  arith,
  parse_workflow_config-Runs n w p k,
  parse_workflow_field-Runs n w p k,
  parse_wire-Runs p,
  parse_global_wire-Runs p,
)

with_agent-Runs : (a : Agent) (w : Workflow) (p : Parser) → Runs (measure p) 0 (with_agent a w p)
unfolding with_agent
with_agent-Runs a w p = ground arith

agent_item-Runs :
    (n : ℕ) (w : Workflow) (p : Parser) → measure p ≤ n → Runs (measure p) 1 (agent_item n w p)
unfolding agent_item
agent_item-Runs n w p k = grind (arith, parse_agent-Runs n p k, with_agent-Runs)

collect_item-Runs :
    (n : ℕ) (w : Workflow) (p : Parser) → measure p ≤ n → Runs (measure p) 1 (collect_item n w p)
unfolding collect_item
collect_item-Runs n w p k = grind (arith, parse_collect-Runs n p k)

module _ (is_duration : String → Bool) where
  step_item-Runs :
      (n : ℕ) (w : Workflow) (p : Parser)
      → measure p ≤ n
      → Runs (measure p) 1 (step_item is_duration n w p)
  unfolding step_item
  step_item-Runs n w p k = grind (arith, parse_step-Runs is_duration n p k)

  parse_item-Runs :
      (n : ℕ) (w : Workflow) (p : Parser)
      → measure p ≤ n
      → Runs (measure p) 1 (parse_item is_duration n w p)
  unfolding parse_item
  parse_item-Runs n w p k = ground (
    arith,
    agent_item-Runs n w p k,
    step_item-Runs n w p k,
    collect_item-Runs n w p k,
    parse_directive-Runs n w p k,
  )

  items-Runs :
      (n : ℕ) (w : Workflow) (p : Parser)
      → measure p < n
      → Runs (measure p) 0 (items is_duration n w p)
  unfolding items
  items-Runs zero w p k = absurd (omega (arith, k))
  items-Runs (suc n) w p k = grind (arith, parse_item-Runs n w p, items-Runs n)

  parse_workflow-Runs :
      (n : ℕ) (p : Parser) → measure p ≤ n → Runs (measure p) 1 (parse_workflow is_duration n p)
  unfolding parse_workflow validate_location
  parse_workflow-Runs n p k = grind (
    arith,
    expect_ident-Runs,
    expect-Runs ident,
    expect-Runs lbrace,
    items-Runs n,
    expect-Runs rbrace,
  )

  measure-loaded :
      (input : String) (location : Location) → measure (loaded input location) < enough_fuel input
  unfolding measure new_lexer
  measure-loaded input location =
      let first = next_token (new_lexer input) in
      omega (arith, length-next_token (new_lexer input), length-next_token (first.1))

  -- The fuel that `parse` gives the loops is enough for every input: its errors are the source's.
  pub parse-IsFueled :
      (input : String) (location : Location)
      → parse is_duration input location ≡ err out_of_fuel
      → ⊥
  unfolding parse
  parse-IsFueled input location h =
      grind (arith, measure-loaded input location, parse_workflow-Runs (enough_fuel input))

  add_workflow-Runs :
      (w : Workflow) (ws : Dict Workflow) (p : Parser)
      → Runs (measure p) 0 (lift (add_workflow w ws) p)
  unfolding add_workflow
  add_workflow-Runs w ws p = ground arith

  workflows_from-Runs :
      (fuel n : ℕ) (ws : Dict Workflow) (p : Parser)
      → measure p < fuel
      → measure p < n
      → Runs (measure p) 0 (workflows_from is_duration fuel n ws p)
  unfolding workflows_from
  workflows_from-Runs fuel zero ws p h k = absurd (omega (arith, k))
  workflows_from-Runs fuel (suc n) ws p h k =
      grind (arith, parse_workflow-Runs fuel p, add_workflow-Runs, workflows_from-Runs fuel n)

  all_at-IsFueled :
      (location : Location) (input : String)
      → all_at is_duration location input ≡ err out_of_fuel
      → ⊥
  unfolding all_at
  all_at-IsFueled location input h = grind (
    arith,
    measure-loaded input location,
    workflows_from-Runs (enough_fuel input) (enough_fuel input) [] (loaded input location),
  )

  -- The parsers of a file with several workflows have enough fuel as well.
  pub parse_all-IsFueled :
      (input : String)
      → (parse_all is_duration input ≡ err out_of_fuel → ⊥)
        × (parse_all_for_host is_duration input ≡ err out_of_fuel → ⊥)
  unfolding parse_all parse_all_for_host
  parse_all-IsFueled input = (all_at-IsFueled container input, all_at-IsFueled host input)
