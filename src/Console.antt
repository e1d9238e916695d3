-- ===== src/Console.antt =====
-- Kernel/naiveConsole.c: numbers in a base, and the clock of the time zone. The drawing of characters
-- is output to video memory and is not modelled.
pub mod Numbers
pub mod Digits
pub mod Clock
mod Tests
