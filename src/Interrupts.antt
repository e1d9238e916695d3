-- ===== src/Interrupts.antt =====
-- Interrupts: Kernel/idtLoader.c, irqDispatcher.c and time.c, and the stubs of the user programs.
pub mod Calls
pub mod Stubs
pub mod Vectors
pub mod Dispatch
mod Tests
