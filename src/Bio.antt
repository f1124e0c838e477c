-- ===== src/Bio.antt =====
-- bio.c: the buffer cache, over the memory disk of memide.c.
pub mod Defs
pub mod Get
pub mod Unique
pub mod View
pub mod Read
mod Tests
