-- ===== src/Userland/Commands.antt =====
-- Userland/SampleCodeModule/commands.c: a line of the shell is taken apart into words, and the
-- commands that it names are called.
pub mod Table
pub mod Words
pub mod Seek
pub mod Call
pub mod Rows
pub mod Scanning
pub mod Lines
pub mod Filters
pub mod Output
pub mod Counts
mod Tests
