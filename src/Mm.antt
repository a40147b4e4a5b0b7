-- ===== src/Mm.antt =====
-- mm/: the allocator, and how the boot memory map is given to it.
pub mod Kalloc
pub mod MemoryMap
