-- ===== src/Proc.antt =====
-- proc.h: threads and processes, and the process table as the kernel threads see it.
pub mod Defs
pub mod Access
pub mod Sleep
pub mod SleepLaws
pub mod Life
pub mod Join
pub mod Rendezvous
pub mod Birth
pub mod Exit
pub mod Reap
pub mod Orphans
mod Tests
