-- ===== src/Shell.antt =====
-- The shell of pset5: pset5/helpers.cc (the tokens of a command line) and pset5/sh61.cc (its parser
-- and the control flow of `run_list`).
pub mod Lexer
pub mod Parser
pub mod Running
mod Examples
