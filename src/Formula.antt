-- ===== src/Formula.antt =====
-- Formula: pkg/formula, the arithmetic of computed attributes.
pub mod Ast
pub mod Lexer
pub mod Parser
pub mod Rat
pub mod Eval
pub mod Names
pub mod Parse
pub mod Checked
