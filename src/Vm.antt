-- ===== src/Vm.antt =====
-- vm.c: page tables, and the memory of processes.
pub mod Bits
pub mod Table
pub mod Space
pub mod View
pub mod Frame
pub mod Map
pub mod Range
pub mod Round
pub mod Grow
pub mod Bytes
pub mod Part
pub mod Copy
mod Tests
