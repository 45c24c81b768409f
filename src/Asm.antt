-- ===== src/Asm.antt =====
-- The assembly of asm/, around the kernel in C.
pub mod Boot
pub mod Cpu
pub mod Interrupt
