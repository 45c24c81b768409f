-- ===== src/Core.antt =====
-- The processor's side of the kernel (src/core).
pub mod Ports
pub mod Idt
pub mod Isr
pub mod Timer
pub mod Cmos
pub mod Boot
