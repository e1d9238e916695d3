-- ===== src/Pipe.antt =====
-- Kernel/pipe.c.
pub mod Entry
pub mod Table
pub mod Transfer
pub mod Fifo
pub mod Messages
mod Tests
