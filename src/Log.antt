-- ===== src/Log.antt =====
-- log.c: the redo log under the file system's system calls.
pub mod Disk
pub mod Defs
pub mod Space
pub mod Header
pub mod Install
pub mod Crash
mod Tests
