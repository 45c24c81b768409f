-- ===== src/Libk.antt =====
-- The kernel's small C library (src/libk).
pub mod Strrev
pub mod Itoa
pub mod Mem
pub mod Printfk
