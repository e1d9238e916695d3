-- ===== src/Scheduler.antt =====
-- Kernel/basicScheduler.c, over the state in Kernel.antt.
pub mod Search
pub mod Choice
pub mod Priority
pub mod Blocking
pub mod Switch
pub mod Start
mod Tests
