-- ===== src/Syscall.antt =====
-- syscall.c: the arguments of system calls.
pub mod Defs
pub mod Args
mod Tests
