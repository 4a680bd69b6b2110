-- ===== src/Dsl/Lexer/Progress.antt =====
-- Every token takes something from the input, but the one that says that the input has ended.
use Prim.Native.Nat.{◌≤◌}
use Prim.Native.Char.{Char, code}
use cloche.Base.{ℕ, ◌+◌, Bool, true, false, ◌≡◌, List, [], ◌∷◌, length, if◌then◌else◌, eqb, arith}
use cloche.Dsl.Token.{Token, tag}
use cloche.Dsl.Lexer.{
  Lexer, skip, line_after, col_after, read_string, read_while, continues_ident, continues_int,
  is_ident_start, is_ident_part, scan, scan_rest, next_token, advance,
}

-- 1 for a token, 0 for the end of the input
abbrev pub weight : Token → ℕ
weight t = if eqb (tag t.type) 0 then 0 else 1

length-skip :
    (cs : List Char) (inside : Bool) (line col : ℕ)
    → length (skip inside cs line col).rest ≤ length cs
unfolding skip
length-skip [] inside line col = omega arith
length-skip (c ∷ cs) inside line col = grind (arith, length-skip cs)

length-read_string :
    (cs : List Char) (escaped : Bool) (buf : List Char) (line col : ℕ)
    → length (read_string escaped buf cs line col).lexer.rest ≤ length cs
unfolding read_string
length-read_string [] escaped buf line col = omega arith
length-read_string (c ∷ cs) escaped buf line col = grind (arith, length-read_string cs)

length-read_while :
    (cs : List Char) (takes : Char → List Char → Bool) (buf : List Char) (line col : ℕ)
    → length (read_while takes buf cs line col).lexer.rest ≤ length cs
unfolding read_while
length-read_while [] takes buf line col = omega arith
length-read_while (c ∷ cs) takes buf line col = grind (arith, length-read_while cs takes)

-- A literal whose first character is taken is shorter than the input.
length-read_while_cons :
    (c : Char) (cs : List Char) (takes : Char → List Char → Bool) (buf : List Char) (line col : ℕ)
    → takes c cs ≡ true
    → length (read_while takes buf (c ∷ cs) line col).lexer.rest ≤ length cs
unfolding read_while
length-read_while_cons c cs takes buf line col h = grind (arith, length-read_while cs takes)

starts-continues :
    (c : Char) (cs : List Char) → is_ident_start (code c) ≡ true → continues_ident c cs ≡ true
unfolding continues_ident is_ident_part
starts-continues c cs h = ground arith

length-advance : (l : Lexer) → length (advance l).rest ≤ length l.rest
unfolding advance
length-advance l = ground arith

length-scan :
    (line col : ℕ) (c : Char) (cs : List Char)
    → length ((scan (record { rest = c ∷ cs; line = line; col = col }) c cs).1).rest ≤ length cs
unfolding scan
length-scan line col c cs = ground (
  arith,
  length-read_string cs false [] (line_after c line) (col_after c col),
  length-read_while_cons c cs continues_int [] line col,
  length-read_while_cons c cs continues_ident [] line col,
  starts-continues c cs,
  length-advance (advance (record { rest = c ∷ cs; line = line; col = col })),
)

weight_le : (t : Token) → weight t ≤ 1
weight_le t = ground arith

length-scan_rest :
    (line col : ℕ) (cs : List Char)
    → length ((scan_rest (record { rest = cs; line = line; col = col }) cs).1).rest
        + weight (scan_rest (record { rest = cs; line = line; col = col }) cs).0
      ≤ length cs
unfolding scan_rest
length-scan_rest line col [] = omega arith
length-scan_rest line col (c ∷ cs) = omega (
  arith,
  length-scan line col c cs,
  weight_le (scan (record { rest = c ∷ cs; line = line; col = col }) c cs).0,
)

-- `NextToken` leaves less of the input than there was, at any token but the end of the input.
pub length-next_token :
    (l : Lexer) → length ((next_token l).1).rest + weight (next_token l).0 ≤ length l.rest
unfolding next_token
length-next_token l =
    let l' = skip false l.rest l.line l.col in
    omega (arith, length-skip l.rest false l.line l.col, length-scan_rest l'.line l'.col l'.rest)
