-- ===== src/Process.antt =====
-- Kernel/process.c.
pub mod Create
pub mod Kill
pub mod Orphans
pub mod Removing
pub mod Killed
mod Tests
