-- ===== src/Dsl/Lexer.antt =====
-- internal/dsl/lexer.go. `[]rune` is a list of characters; the position `pos` is held by what is left
-- of the input from there on.
pub mod Progress
use Prim.Native.Char.{Char, code}
use Prim.Native.String.{String}
use cloche.Base.{
  ℕ, suc, ◌+◌, Bool, true, false, not, ◌&&◌, ◌||◌, List, [], ◌∷◌, ◌++◌, if◌then◌else◌, leb, eqb,
}
use cloche.Base.Int.{is_digit}
use cloche.Dsl.Token.{
  TokenType, eof, illegal, ident, int, string, lbrace, rbrace, lbracket, rbracket, lparen, rparen,
  comma, equals, arrow, colon, dot, Token,
}

pub record Lexer : Type 0 where
  pub rest : List Char
  pub line : ℕ
  pub col : ℕ

-- `[]rune(input)` and `string(runes)`
abbrev pub runes : String → List Char
runes String.[] = []
runes (String.◌∷◌ c s) = c ∷ runes s

abbrev pub from_runes : List Char → String
from_runes [] = String.[]
from_runes (c ∷ cs) = String.◌∷◌ c (from_runes cs)

-- `NewLexer`
unfoldable pub new_lexer : String → Lexer
new_lexer input = record { rest = runes input; line = 1; col = 1 }

abbrev pub is_char : ℕ → Char → Bool
is_char n c = eqb (code c) n

-- the line and the column behind a character
unfoldable pub line_after : Char → ℕ → ℕ
line_after c line = if is_char b'\n' c then line + 1 else line

unfoldable pub col_after : Char → ℕ → ℕ
col_after c col = if is_char b'\n' c then 1 else col + 1

-- `advance`, on what is left
advance_in : List Char → ℕ → ℕ → Lexer
unfolding line_after col_after
advance_in [] line col = record { rest = []; line = line; col = col }
advance_in (c ∷ cs) line col = record { rest = cs; line = line_after c line; col = col_after c col }

unfoldable pub advance : Lexer → Lexer
unfolding advance_in
advance l = advance_in l.rest l.line l.col

-- `peek`, behind the current character: 0 at the end of the input
unfoldable pub peek : List Char → ℕ
peek [] = 0
peek (c ∷ cs) = code c

unfoldable pub is_ident_start : ℕ → Bool
is_ident_start c = (leb b'a' c && leb c b'z') || (leb b'A' c && leb c b'Z') || eqb c b'_'

unfoldable pub is_ident_part : ℕ → Bool
unfolding is_ident_start
is_ident_part c = is_ident_start c || (leb b'0' c && leb c b'9')

unfoldable pub is_blank : Char → Bool
is_blank c = is_char b' ' c || is_char b'\t' c || is_char b'\n' c || is_char b'\r' c

-- `ch == '/' && l.peek() == '/'`
unfoldable pub opens_comment : Char → List Char → Bool
unfolding peek
opens_comment c cs = is_char b'/' c && eqb (peek cs) b'/'

-- `skipWhitespaceAndComments`; the flag says that the inner loop, over a comment, is running. It
-- leaves a newline to the outer loop, which skips it.
unfoldable pub skip : Bool → List Char → ℕ → ℕ → Lexer
unfolding is_blank opens_comment line_after col_after
skip inside [] line col = record { rest = []; line = line; col = col }
skip inside (c ∷ cs) line col =
    let stops = not inside && not (is_blank c) && not (opens_comment c cs) in
    let still = not (is_char b'\n' c) && (inside || opens_comment c cs) in
    let skipped = skip still cs (line_after c line) (col_after c col) in
    if stops then record { rest = c ∷ cs; line = line; col = col } else skipped

-- What a loop that reads a literal returns.
pub record Read : Type 0 where
  pub literal : List Char
  pub lexer : Lexer

-- the characters that an escape stands for
unfoldable pub unescape : Char → List Char
unescape c =
    if is_char b'"' c
    then "\"" ∷ []
    else if is_char b'\\' c
    then "\\" ∷ []
    else if is_char b'n' c
    then "\n" ∷ []
    else if is_char b't' c
    then "\t" ∷ []
    else "\\" ∷ c ∷ []

unfoldable pub is_nil : List Char → Bool
is_nil [] = true
is_nil (c ∷ cs) = false

-- The loop of `readString`; the flag says that a backslash, with a character behind it, was read last.
unfoldable pub read_string : Bool → List Char → List Char → ℕ → ℕ → Read
unfolding unescape is_nil line_after col_after
read_string escaped buf [] line col = record {
  literal = buf;
  lexer = record { rest = []; line = line; col = col };
}
read_string escaped buf (c ∷ cs) line col =
    let opens = not escaped && is_char b'\\' c && not (is_nil cs) in
    let buf' = if escaped then buf ++ unescape c else if opens then buf else buf ++ c ∷ [] in
    let others = read_string opens buf' cs (line_after c line) (col_after c col) in
    if not escaped && is_char b'"' c
    then record {
      literal = buf;
      lexer = record { rest = cs; line = line_after c line; col = col_after c col };
    }
    else others

-- a character that goes on an identifier
unfoldable pub continues_ident : Char → List Char → Bool
unfolding is_ident_part peek is_nil
continues_ident c cs =
    is_ident_part (code c)
    || (is_char b'-' c && not (eqb (peek cs) b'>') && not (is_nil cs) && is_ident_part (peek cs))

-- The loops of `readIdent` and `readInt`: the literal is what they pass over.
unfoldable pub read_while : (Char → List Char → Bool) → List Char → List Char → ℕ → ℕ → Read
unfolding line_after col_after
read_while takes buf [] line col = record {
  literal = buf;
  lexer = record { rest = []; line = line; col = col };
}
read_while takes buf (c ∷ cs) line col =
    let others = read_while takes (buf ++ c ∷ []) cs (line_after c line) (col_after c col) in
    if takes c cs
    then others
    else record { literal = buf; lexer = record { rest = c ∷ cs; line = line; col = col } }

abbrev pub continues_int : Char → List Char → Bool
continues_int c cs = is_digit (code c)

-- The types of the tokens of one character.
unfoldable pub punctuation : Char → TokenType
punctuation c =
    if is_char b'{' c
    then lbrace
    else if is_char b'}' c
    then rbrace
    else if is_char b'[' c
    then lbracket
    else if is_char b']' c
    then rbracket
    else if is_char b'(' c
    then lparen
    else if is_char b')' c
    then rparen
    else if is_char b',' c
    then comma
    else if is_char b'=' c
    then equals
    else if is_char b':' c
    then colon
    else if is_char b'.' c
    then dot
    else illegal

abbrev pub token_at : Lexer → TokenType → List Char → Token
token_at l type literal = record {
  type = type;
  literal = from_runes literal;
  line = l.line;
  col = l.col;
}

-- The switch of `NextToken`, at the character `c`.
unfoldable pub scan : Lexer → Char → List Char → Token × Lexer
unfolding advance peek read_string read_while continues_ident punctuation is_ident_start is_digit
scan l c cs =
    if is_char b'-' c && eqb (peek cs) b'>'
    then (token_at l arrow (runes "->"), advance (advance l))
    else if is_char b'"' c
    then (let r = read_string false [] cs (line_after c l.line) (col_after c l.col) in
        (token_at l string r.literal, r.lexer))
    else if is_digit (code c)
    then (let r = read_while continues_int [] l.rest l.line l.col in
        (token_at l int r.literal, r.lexer))
    else if is_ident_start (code c)
    then (let r = read_while continues_ident [] l.rest l.line l.col in
        (token_at l ident r.literal, r.lexer))
    else (token_at l (punctuation c) (c ∷ []), advance l)

unfoldable pub scan_rest : Lexer → List Char → Token × Lexer
unfolding scan
scan_rest l [] = (token_at l eof [], l)
scan_rest l (c ∷ cs) = scan l c cs

-- `NextToken`
unfoldable pub next_token : Lexer → Token × Lexer
unfolding skip scan_rest
next_token l = let l' = skip false l.rest l.line l.col in scan_rest l' l'.rest
