-- ===== src/Parser.antt =====
-- src/frothy_parser.c: from a source text to a program of the intermediate code.
pub mod Token
pub mod Lexer
pub mod Capacity
pub mod State
pub mod Pools
pub mod Scopes
pub mod Advance
pub mod Params
pub mod Blocks
pub mod Control
pub mod Expr
pub mod Top
pub mod Runs
