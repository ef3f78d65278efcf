-- ===== src/Sfmm.antt =====
-- The memory allocator of hw3: see the children.
pub mod Memory
pub mod Lists
pub mod Alloc
pub mod Release
