-- ===== src/Fql.antt =====
-- Fql: the query language of pkg/fql.
pub mod Token
pub mod Lexer
pub mod Ast
pub mod Reader
pub mod Terms
pub mod Parser
pub mod Query
