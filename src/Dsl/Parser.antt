-- ===== src/Dsl/Parser.antt =====
-- internal/dsl/parser.go: the parser's state, its errors and the parsers of values and lists. Every
-- loop takes fuel, one unit for each turn, and `out_of_fuel` is told from the source's errors.
pub mod Blocks
pub mod Workflows
pub mod Fixups
pub mod Handled
pub mod Complete
pub mod Fuel
use Prim.Native.Char.{Char}
use Prim.Native.String
use Prim.Native.String.{String}
use cloche.Base.{
  ℕ, zero, suc, ◌+◌, Bool, true, false, not, ◌&&◌, ◌||◌, Option, none, some, List, [], ◌∷◌, ◌++◌,
  ◌==◌, if◌then◌else◌, eqb, length, Result, ok, err,
}
use cloche.Workflow.{Location}
use cloche.Dsl.Token.{
  TokenType, eof, illegal, ident, int, string, lbrace, rbrace, lbracket, rbracket, lparen, rparen,
  comma, equals, arrow, colon, dot, Token, tag,
}
use cloche.Dsl.Lexer.{Lexer, new_lexer, next_token, runes}

pub record Parser : Type 0 where
  pub lexer : Lexer
  pub current : Token
  pub peek : Token
  pub location : Location

-- The errors, with the token that the message is about; a Go error that wraps another is the wrapped
-- one here.
pub data ParseError : Type 0 where
  expected : TokenType → Token → ParseError
  expected_ident : String → Token → ParseError
  expected_value unexpected_token token_limit_not_int max_attempts_not_int : Token → ParseError
  bad_token_limit : String → ParseError
  unknown_field unknown_agent_field bad_collect_mode : Token → ParseError
  two_locations : String → ParseError
  duplicate_agent command_missing : String → ParseError
  several_kinds no_kind poll_without_interval : String → ParseError
  bad_interval : String → String → ParseError
  duplicate_workflow : String → ParseError
  no_workflows : ParseError
  -- no error of the source
  out_of_fuel : ParseError

abbrev pub P {ℓ} : Type ℓ → Type ℓ
P A = Parser → Result ParseError (A × Parser)

abbrev pub raise {ℓ} : {A : Type ℓ} → ParseError → P A
raise x _ = err x

abbrev pub pure {ℓ} : {A : Type ℓ} → A → P A
pure a p = ok (a, p)

infixl 5 ◌>>=◌
abbrev pub ◌>>=◌ {μ ν} : {Y : Type ν} {X : Type μ} → P X → (X → P Y) → P Y
◌>>=◌ first next p = elim (first p) [ ok (x, p') ↦ next x p' | err e ↦ err e ]

infixl 5 ◌>>◌
abbrev pub ◌>>◌ {μ ν} : {Y : Type ν} {X : Type μ} → P X → P Y → P Y
first >> next = first >>= λ _. next

-- `p.current` and `p.peek`
abbrev pub current_token : P Token
current_token p = ok (p.current, p)

abbrev pub is_type : TokenType → Token → Bool
is_type type t = eqb (tag t.type) (tag type)

abbrev pub is_ident : String → Token → Bool
is_ident word t = is_type ident t && t.literal == word

-- the test of the loops: neither the closing token nor the end of the input
abbrev pub goes_on : TokenType → Token → Bool
goes_on closing t = not (is_type closing t) && not (is_type eof t)

abbrev pub advanced : Parser → Token × Lexer → Parser
advanced p r = record p { current = p.peek; peek = r.0; lexer = r.1 }

-- `advance`
unfoldable pub advance : P (Unit {0})
advance p = ok (tt, advanced p (next_token p.lexer))

-- `expect`
unfoldable pub expect : TokenType → P Token
expect type p =
    if is_type type p.current
    then ok (p.current, advanced p (next_token p.lexer))
    else err (expected type p.current)

-- `expectIdent`
unfoldable pub expect_ident : String → P Token
expect_ident word p =
    if is_ident word p.current
    then ok (p.current, advanced p (next_token p.lexer))
    else err (expected_ident word p.current)

-- `if p.current.Type == TokenComma { p.advance() }`
unfoldable pub skip_if : TokenType → P (Unit {0})
skip_if type p =
    if is_type type p.current then ok (tt, advanced p (next_token p.lexer)) else ok (tt, p)

-- The loop of `parseIdentList` and `parseStringList`; they differ in the type of their items.
unfoldable pub list_items : ℕ → TokenType → List String → P (List String)
list_items zero type items p = err out_of_fuel
list_items (suc n) type items p =
    let others : Result ParseError (List String × Parser) =
      (do tok ← expect type; skip_if comma; list_items n type (items ++ tok.literal ∷ [])) p in
    if goes_on rbracket p.current then others else ok (items, p)

-- `parseIdentList` and `parseStringList`
unfoldable pub parse_list : ℕ → TokenType → P (List String)
parse_list n type = do expect lbracket; items ← list_items n type []; expect rbracket; pure items

abbrev pub concat : String → String → String
concat a b = String.◌++◌ a b

quoted : Token → String
quoted t = if is_type string t then concat "\"" (concat t.literal "\"") else t.literal

-- the loop over the arguments of `file("...")`
unfoldable pub call_arguments : ℕ → String → P String
unfolding quoted
call_arguments zero buf p = err out_of_fuel
call_arguments (suc n) buf p =
    let others : Result ParseError (String × Parser) =
      (do advance; call_arguments n (concat buf (quoted p.current))) p in
    if goes_on rparen p.current then others else ok (buf, p)

unfoldable pub parse_call : ℕ → String → P String
parse_call n buf p =
    if is_type lparen p.current
    then (do advance; buf' ← call_arguments n (concat buf "("); advance; pure (concat buf' ")")) p
    else ok (buf, p)

-- `if p.current.Type == TokenIdent { buf.WriteString(...); p.advance() }`
unfoldable pub ident_part : String → P String
ident_part buf p =
    if is_type ident p.current
    then ok (concat buf p.current.literal, advanced p (next_token p.lexer))
    else ok (buf, p)

-- the loop over a dotted path
unfoldable pub dotted : ℕ → String → P String
dotted zero buf p = err out_of_fuel
dotted (suc n) buf p =
    let others : Result ParseError (String × Parser) =
      (do advance; buf' ← ident_part (concat buf "."); dotted n buf') p in
    if is_type dot p.current then others else ok (buf, p)

-- `parseValue`
unfoldable pub parse_value : ℕ → P String
parse_value n p =
    if is_type string p.current || is_type int p.current
    then ok (p.current.literal, advanced p (next_token p.lexer))
    else if is_type ident p.current
    then (do advance; buf ← parse_call n p.current.literal; dotted n buf) p
    else err (expected_value p.current)
