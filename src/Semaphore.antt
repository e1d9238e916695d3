-- ===== src/Semaphore.antt =====
-- Kernel/semaphore.c, with the lock of Kernel/asm/semaphores.asm.
pub mod Spaces
pub mod Locks
pub mod Frame
pub mod Wake
pub mod Opening
pub mod Closing
mod Tests
