-- ===== src/Drivers.antt =====
-- The device drivers (src/drivers).
pub mod Screen
pub mod Serial
pub mod Keyboard
