-- ===== src/Mutex.antt =====
-- kthread.c: the mutexes of the kernel threads.
pub mod Queue
pub mod Defs
pub mod Inv
pub mod Ops
pub mod Table
pub mod Wakeup
pub mod Total
pub mod Yield
mod Tests
