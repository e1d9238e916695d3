-- ===== src/Userland.antt =====
-- Userland/SampleCodeModule: the programs that run above the system calls.
pub mod Utils
pub mod Shell
pub mod Commands
pub mod Pong
pub mod Phylo
