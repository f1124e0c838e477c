-- ===== src/Console.antt =====
-- console.c: the input of the console.
pub mod Defs
pub mod Ring
pub mod Read
mod Tests
