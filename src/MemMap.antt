-- ===== src/MemMap.antt =====
-- The physical memory manager of src/kernel/Memory/PMM/mem_map.c.
pub mod Word
pub mod Defs
pub mod Alloc
pub mod Layout
mod Mark
mod Ranges
pub mod Register
mod Padding
pub mod Pages
pub mod Tests
