-- ===== src/Monitor.antt =====
-- Monitors and condition variables of user programs, over the system calls on mutexes.
pub mod Calls
pub mod Mesa
pub mod Hoare
pub mod Kernel
pub mod HoareLaws
pub mod MesaLaws
pub mod MesaRun
mod Tests
