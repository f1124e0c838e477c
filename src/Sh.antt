-- ===== src/Sh.antt =====
-- sh.c: the parser of the shell.
pub mod Lexer
pub mod Parser
pub mod LexerLaws
pub mod Rules
pub mod Bounds
pub mod Terminate
mod Tests
