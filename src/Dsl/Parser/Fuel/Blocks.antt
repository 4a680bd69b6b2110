-- ===== src/Dsl/Parser/Fuel/Blocks.antt =====
-- The parsers of the blocks of a workflow never run out of fuel, and each takes a token.
use Prim.Native.Nat.{◌≤◌, ◌<◌}
use Prim.Native.String.{String}
use cloche.Base.{ℕ, zero, suc, Bool, true, ◌≡◌, List, arith}
use cloche.Workflow.{Step, Agent, WireCondition}
use cloche.Dsl.Token.{
  ident, int, string, lbrace, rbrace, lparen, rparen, comma, equals, arrow, colon, Token,
}
use cloche.Dsl.Parser.{Parser, P, ◌>>=◌, is_type, advance, expect}
use cloche.Dsl.Parser.Blocks.{
  field_key, with_field, agent_fields, parse_agent, minus_sign, checked_limit, parse_token_limit,
  attempts_or_value, step_value, field_body, prefixed, step_fields, infer_type, parse_step,
  parse_wire, parse_global_wire, parse_mode, collect_conditions, parse_collect, lift,
}
use cloche.Dsl.Parser.Fuel.{
  measure, Runs, advance-Runs, expect-Runs, skip_if-Runs, parse_list-Runs, parse_value-Runs,
}

pub field_key-Runs : (p : Parser) → Runs (measure p) 1 (field_key p)
unfolding field_key
field_key-Runs p = grind (arith, expect-Runs ident, expect-Runs equals)

with_field-Runs :
    (a : Agent) (key : Token) (val : String) (p : Parser)
    → Runs (measure p) 0 (with_field a key val p)
unfolding with_field
with_field-Runs a key val p = ground arith

agent_fields-Runs :
    (n : ℕ) (a : Agent) (p : Parser) → measure p < n → Runs (measure p) 0 (agent_fields n a p)
unfolding agent_fields
agent_fields-Runs zero a p k = absurd (omega (arith, k))
agent_fields-Runs (suc n) a p k =
    grind (arith, field_key-Runs p, parse_value-Runs n, with_field-Runs, agent_fields-Runs n)

pub parse_agent-Runs : (n : ℕ) (p : Parser) → measure p ≤ n → Runs (measure p) 1 (parse_agent n p)
unfolding parse_agent
parse_agent-Runs n p k = grind (
  arith,
  advance-Runs p,
  expect-Runs ident,
  expect-Runs lbrace,
  expect-Runs rbrace,
  agent_fields-Runs n,
)

minus_sign-Runs : (p : Parser) → Runs (measure p) 0 (minus_sign p)
unfolding minus_sign
minus_sign-Runs p = grind (arith, advance-Runs p)

checked_limit-Runs : (num : String) (p : Parser) → Runs (measure p) 0 (checked_limit num p)
unfolding checked_limit
checked_limit-Runs num p = ground arith

int_weight : (p : Parser) → is_type int p.current ≡ true → Runs (measure p) 1 (advance p)
int_weight p h = ground (arith, advance-Runs p)

pub parse_token_limit-Runs : (p : Parser) → Runs (measure p) 1 (parse_token_limit p)
unfolding parse_token_limit
parse_token_limit-Runs p = grind (arith, minus_sign-Runs p, int_weight, checked_limit-Runs)

attempts_or_value-Runs :
    (n : ℕ) (key : String) (p : Parser)
    → measure p < n
    → Runs (measure p) 1 (attempts_or_value n key p)
unfolding attempts_or_value
attempts_or_value-Runs n key p k = grind (arith, parse_value-Runs n p k)

step_value-Runs :
    (n : ℕ) (key : String) (step : Step) (p : Parser)
    → measure p < n
    → Runs (measure p) 1 (step_value n key step p)
unfolding step_value
step_value-Runs n key step p k = grind (
  arith,
  parse_list-Runs n ident p,
  parse_list-Runs n string p,
  parse_token_limit-Runs p,
  attempts_or_value-Runs n key p k,
)

-- A loop over fields that has enough fuel below a bound.
abbrev Loops : ℕ → (String → Step → P Step) → Type 0
Loops n fields =
    (key : String) (step : Step) (p : Parser)
    → measure p < n
    → Runs (measure p) 0 (fields key step p)

field_body-Runs :
    (fields : String → Step → P Step) (n : ℕ)
    → Loops n fields
    → (key : String) (step : Step) (p : Parser) → measure p < n
    → Runs (measure p) 0 (field_body fields n key step p)
unfolding field_body
field_body-Runs fields n loops key step p k =
    grind (arith, advance-Runs, expect-Runs equals p, step_value-Runs n key step, loops key step)

fields_turn-Runs :
    (fields : String → Step → P Step) (n : ℕ)
    → Loops n fields
    → (prefix : String) (step : Step) (p : Parser) → measure p ≤ n
    → Runs (measure p) 0 (
        (do
          tok ← expect ident
          step' ← field_body fields n (prefixed prefix tok.literal) step
          fields prefix step')
          p)
fields_turn-Runs fields n loops prefix step p k =
    grind (arith, expect-Runs ident p, field_body-Runs fields n loops, loops prefix)

step_fields-Runs : (n : ℕ) → Loops n (step_fields n)
unfolding step_fields
step_fields-Runs zero prefix step p k = absurd (omega (arith, k))
step_fields-Runs (suc n) prefix step p k = ground (
  arith,
  fields_turn-Runs (step_fields n) n (step_fields-Runs n) prefix step p (omega (arith, k)),
)

infer_type-Runs :
    (is_duration : String → Bool) (step : Step) (p : Parser)
    → Runs (measure p) 0 (lift (infer_type is_duration step) p)
unfolding infer_type
infer_type-Runs is_duration step p = ground arith

pub parse_step-Runs :
    (is_duration : String → Bool) (n : ℕ) (p : Parser)
    → measure p ≤ n
    → Runs (measure p) 1 (parse_step is_duration n p)
unfolding parse_step
parse_step-Runs is_duration n p k = grind (
  arith,
  advance-Runs p,
  expect-Runs ident,
  expect-Runs lbrace,
  expect-Runs rbrace,
  step_fields-Runs n "",
  infer_type-Runs is_duration,
)

pub parse_wire-Runs : (p : Parser) → Runs (measure p) 1 (parse_wire p)
unfolding parse_wire
parse_wire-Runs p =
    grind (arith, advance-Runs p, expect-Runs colon, expect-Runs ident, expect-Runs arrow)

pub parse_global_wire-Runs : (p : Parser) → Runs (measure p) 1 (parse_global_wire p)
unfolding parse_global_wire
parse_global_wire-Runs p = grind (arith, advance-Runs p, expect-Runs ident, expect-Runs arrow)

parse_mode-Runs : (tok : Token) (p : Parser) → Runs (measure p) 0 (parse_mode tok p)
unfolding parse_mode
parse_mode-Runs tok p = ground arith

collect_conditions-Runs :
    (n : ℕ) (cs : List WireCondition) (p : Parser)
    → measure p < n
    → Runs (measure p) 0 (collect_conditions n cs p)
unfolding collect_conditions
collect_conditions-Runs zero cs p k = absurd (omega (arith, k))
collect_conditions-Runs (suc n) cs p k =
    grind
      (arith, expect-Runs ident, expect-Runs colon, skip_if-Runs comma, collect_conditions-Runs n)

pub parse_collect-Runs :
    (n : ℕ) (p : Parser) → measure p ≤ n → Runs (measure p) 1 (parse_collect n p)
unfolding parse_collect
parse_collect-Runs n p k = grind (
  arith,
  advance-Runs p,
  expect-Runs ident,
  parse_mode-Runs,
  expect-Runs lparen,
  collect_conditions-Runs n,
  expect-Runs rparen,
  expect-Runs arrow,
)
