-- ===== src/Dsl.antt =====
-- The workflow language: internal/dsl/token.go, lexer.go and parser.go.
pub mod Token
pub mod Lexer
pub mod Parser
