-- ===== src/Pipe.antt =====
-- pipe.c: a ring of 512 bytes between file descriptors, with sleeping readers and writers.
pub mod Defs
pub mod Ring
pub mod Stream
pub mod Wakeups
mod Tests
