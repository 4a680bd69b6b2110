-- ===== src/Dsl/Token.antt =====
-- internal/dsl/token.go.

use cloche.Base.{ℕ, String}

pub data TokenType : Type 0 where
  eof illegal ident int string lbrace rbrace lbracket rbracket lparen rparen : TokenType
  comma equals arrow colon dot : TokenType

-- `TokenType.String`
unfoldable pub type_name : TokenType → String
type_name eof = "EOF"
type_name illegal = "ILLEGAL"
type_name ident = "IDENT"
type_name int = "INT"
type_name string = "STRING"
type_name lbrace = "LBRACE"
type_name rbrace = "RBRACE"
type_name lbracket = "LBRACKET"
type_name rbracket = "RBRACKET"
type_name lparen = "LPAREN"
type_name rparen = "RPAREN"
type_name comma = "COMMA"
type_name equals = "EQUALS"
type_name arrow = "ARROW"
type_name colon = "COLON"
type_name dot = "DOT"

pub record Token : Type 0 where
  pub type : TokenType
  pub literal : String
  pub line : ℕ
  pub col : ℕ

-- A number for each type, by which two types are compared.
abbrev pub tag : TokenType → ℕ
tag eof = 0
tag illegal = 1
tag ident = 2
tag int = 3
tag string = 4
tag lbrace = 5
tag rbrace = 6
tag lbracket = 7
tag rbracket = 8
tag lparen = 9
tag rparen = 10
tag comma = 11
tag equals = 12
tag arrow = 13
tag colon = 14
tag dot = 15
