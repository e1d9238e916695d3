-- ===== src/Memory/Buddy/Malloc.antt =====
-- `malloc_rec` of mem_buddy.c: with enough fuel it ends, and either serves the request from a free
-- leaf or leaves the tree as it was because no free leaf is large enough.
mod Parents
mod Total
pub use Parents.*
pub use Total.*
