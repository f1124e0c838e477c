-- ===== src/Str.antt =====
-- string.c: the byte and string routines of the kernel.
pub mod Defs
pub mod Move
pub mod Copy
pub mod Compare
mod Tests
