-- ===== src/Spinlock.antt =====
-- spinlock.c: spin locks and the nesting of disabled interrupts.
pub mod Defs
pub mod Nesting
mod Tests
