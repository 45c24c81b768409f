-- ===== src/Examples.antt =====
-- The theorems at concrete inputs.
mod Libk
mod Core
mod Drivers
mod Mmu
mod Paging
mod Boot
mod Devices
mod Kernel
mod Start
mod Asm
mod Debug
