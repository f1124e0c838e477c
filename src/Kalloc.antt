-- ===== src/Kalloc.antt =====
-- kalloc.c: the allocator of 4096-byte pages, a list threaded through the free pages themselves.
pub mod Defs
pub mod Chain
pub mod Range
mod Tests
