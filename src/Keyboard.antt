-- ===== src/Keyboard.antt =====
-- The keyboard: Kernel/keyboard_buffer.c, drivers/keyboard_driver.c and the read from it in
-- syscalls.c.
pub mod ScanCodes
pub mod Handler
pub mod Reading
pub mod Bounds
pub mod Modifiers
pub mod Delivery
mod Tests
