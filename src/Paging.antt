-- ===== src/Paging.antt =====
-- lab05/src/paging.c: the bitset of physical frames, the page directory, and the start of paging.
pub mod Frames
pub mod Alloc
pub mod Directory
pub mod Start
mod Tests
