-- ===== src/Kernel.antt =====
-- The kernel as one state: the start, the panic, and the interrupts.
pub mod State
pub mod Panic
pub mod Dispatch
pub mod Start
pub mod Texts
pub mod Runs
pub mod Interrupt
pub mod Frames
pub mod Reach
pub mod Debug
