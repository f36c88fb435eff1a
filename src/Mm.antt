-- ===== src/Mm.antt =====
-- The page allocator, src/mm.c and include/mm.h: the types and field writes, the order of a size,
-- the free lists, allocation, freeing, and reservation.
pub mod Types
pub mod Order
pub mod FreeList
pub mod Dll
pub mod Insert
pub mod Remove
pub mod Blocks
pub mod Inv
pub mod Alloc
pub mod Split
pub mod SplitCover
pub mod Found
pub mod Free
pub mod Init
pub mod Initial
pub mod Buddy
pub mod Merge
pub mod Freed
