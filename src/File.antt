-- ===== src/File.antt =====
-- file.c and sysfile.c: open files and descriptors.
pub mod Defs
pub mod Calls
pub mod Table
pub mod Count
pub mod Close
pub mod PipeCount
pub mod Race
mod Tests
