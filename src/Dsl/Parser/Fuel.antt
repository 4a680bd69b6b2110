-- ===== src/Dsl/Parser/Fuel.antt =====
-- The loops of the parser never run out of fuel: what is left of the input shrinks with every turn.
pub mod Blocks
pub mod Workflows
use Prim.Native.Nat.{◌≤◌, ◌<◌}
use Prim.Native.String.{String}
use cloche.Base.{
  ℕ, zero, suc, ◌+◌, Bool, true, false, not, ◌&&◌, ◌||◌, ◌≡◌, refl, inl, inr, List, [], ◌∷◌, ◌++◌,
  length, if◌then◌else◌, eqb, Bool-cases, Result, ok, err, arith,
}
use cloche.Dsl.Token.{
  TokenType, eof, ident, string, lbrace, rbrace, lbracket, rbracket, lparen, rparen, comma, equals,
  arrow, colon, dot, Token, tag,
}
use cloche.Dsl.Lexer.{Lexer, next_token}
use cloche.Dsl.Lexer.Progress.{weight, length-next_token}
use cloche.Dsl.Parser.{
  Parser, ParseError, out_of_fuel, P, ◌>>=◌, ◌>>◌, pure, raise, current_token, is_type, is_ident,
  goes_on, advanced, advance, expect, expect_ident, skip_if, list_items, parse_list, call_arguments,
  parse_call, ident_part, dotted, parse_value, concat,
}

-- What is left to read: the two loaded tokens and the characters behind them.
unfoldable pub measure : Parser → ℕ
measure p = length p.lexer.rest + weight p.peek + weight p.current

abbrev pub is_fuel : ParseError → Bool
is_fuel out_of_fuel = true
is_fuel _ = false

-- A result with at least `k` less than `n` to read behind it, or an error of the source.
abbrev pub Runs {ℓ} : {A : Type ℓ} → ℕ → ℕ → Result ParseError (A × Parser) → Type 0
Runs n k (ok (a, q)) = measure q + k ≤ n
Runs n k (err x) = is_fuel x ≡ false

pub measure-advanced :
    (p : Parser) → measure (advanced p (next_token p.lexer)) + weight p.current ≤ measure p
unfolding measure
measure-advanced p = omega (arith, length-next_token p.lexer)

pub advance-Runs : (p : Parser) → Runs (measure p) (weight p.current) (advance p)
unfolding advance
advance-Runs p = measure-advanced p

pub expect-Runs :
    (type : TokenType) (p : Parser) → 1 ≤ tag type → Runs (measure p) 1 (expect type p)
unfolding expect
expect-Runs type p h = ground (arith, measure-advanced p)

pub expect_ident-Runs : (word : String) (p : Parser) → Runs (measure p) 1 (expect_ident word p)
unfolding expect_ident
expect_ident-Runs word p = ground (arith, measure-advanced p)

skip_if-Runs : (type : TokenType) (p : Parser) → Runs (measure p) 0 (skip_if type p)
unfolding skip_if
skip_if-Runs type p = ground (arith, measure-advanced p)

list_items-Runs :
    (n : ℕ) (type : TokenType) (items : List String) (p : Parser)
    → 1 ≤ tag type
    → measure p < n
    → Runs (measure p) 0 (list_items n type items p)
unfolding list_items
list_items-Runs zero type items p h k = absurd (omega (arith, k))
list_items-Runs (suc n) type items p h k =
    grind (arith, expect-Runs type p, skip_if-Runs comma, list_items-Runs n type)

pub parse_list-Runs :
    (n : ℕ) (type : TokenType) (p : Parser)
    → 1 ≤ tag type
    → measure p < n
    → Runs (measure p) 1 (parse_list n type p)
unfolding parse_list
parse_list-Runs n type p h k =
    grind (arith, expect-Runs lbracket, expect-Runs rbracket, list_items-Runs n type [])

call_arguments-Runs :
    (n : ℕ) (buf : String) (p : Parser)
    → measure p < n
    → Runs (measure p) 0 (call_arguments n buf p)
unfolding call_arguments
call_arguments-Runs zero buf p k = absurd (omega (arith, k))
call_arguments-Runs (suc n) buf p k = grind (arith, advance-Runs p, call_arguments-Runs n)

parse_call-Runs :
    (n : ℕ) (buf : String) (p : Parser) → measure p < n → Runs (measure p) 0 (parse_call n buf p)
unfolding parse_call
parse_call-Runs n buf p k = grind (arith, advance-Runs, call_arguments-Runs n)

ident_part-Runs : (buf : String) (p : Parser) → Runs (measure p) 0 (ident_part buf p)
unfolding ident_part
ident_part-Runs buf p = ground (arith, measure-advanced p)

dotted-Runs :
    (n : ℕ) (buf : String) (p : Parser) → measure p < n → Runs (measure p) 0 (dotted n buf p)
unfolding dotted
dotted-Runs zero buf p k = absurd (omega (arith, k))
dotted-Runs (suc n) buf p k = grind (arith, advance-Runs p, ident_part-Runs, dotted-Runs n)

pub parse_value-Runs : (n : ℕ) (p : Parser) → measure p < n → Runs (measure p) 1 (parse_value n p)
unfolding parse_value
parse_value-Runs n p k =
    grind (arith, measure-advanced p, advance-Runs p, parse_call-Runs n, dotted-Runs n)
