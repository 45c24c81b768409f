-- ===== src/Mmu.antt =====
-- The memory management unit: frames and pages (src/mmu).
pub mod Mmap
pub mod Paging
pub mod Area
