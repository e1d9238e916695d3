-- ===== src/Memory.antt =====
-- Kernel/memory_manager: the two allocators behind `malloc` and `free`.
pub mod Buddy
pub mod Bitmap
