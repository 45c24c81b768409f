-- ===== src/Kernel/Reach.antt =====
-- The kernel behind its start, in the loop `while (1) hlt` at the end of src/kernel/kmain.c: what
-- happens is exceptions, interrupts of the lines and bytes that the keyboard's device offers.
pub mod Handlers
pub mod Outcome
pub mod Steady
pub mod Served
pub mod Allocation
use utero_archive.Base.{
  ℕ, zero, suc, ◌+◌, ◌-◌, ◌*◌, ◌/◌, ◌%◌, ◌^◌, ◌≤◌, ◌<◌, ◌≡◌, ◌≢◌, ◌⊎◌, ◌↔◌, inl, inr, refl, sym, ap,
  ◌∙◌, arith, Bool, ◌||◌, ◌&&◌, not, true, false, ◌==◌, ltb, leb, if◌then◌else◌, Option, some, none,
  List, [], ◌∷◌, ◌++◌, length, get_or, get_elem?, Bool-cases, u8, u16, u32, u64, bit_and, bit_or,
}
use utero_archive.Kernel.State.{Build, Kernel, set_hardware}
use utero_archive.Kernel.Dispatch.{exception, interrupt}

-- A byte more that the device has to read.
abbrev pub pressed : ℕ → Kernel → Kernel
pressed code k =
    set_hardware (record (k.screen.hardware) { input = k.screen.hardware.input ++ (code ∷ []) }) k

-- A panic ends in a loop of its own with interrupts disabled, which raises no exception.
pub data Moves (b : Build) (k : Kernel) : Kernel → Type 0 where
  fault :
      (id stack_addr : ℕ) {k' : Kernel}
      → id < 32
      → k.halted ≡ false
      → exception b id stack_addr k ≡ some (tt, k')
      → Moves b k k'
  line :
      (id stack_addr : ℕ) {k' : Kernel}
      → 32 ≤ id
      → id < 256
      → k.halted ≡ false
      → k.interrupts_enabled ≡ true
      → interrupt b id stack_addr k ≡ some (tt, k')
      → Moves b k k'
  key : (code : ℕ) → Moves b k (pressed code k)

pub data Reach (b : Build) (k : Kernel) : Kernel → Type 0 where
  start : Reach b k k
  later : {k1 k2 : Kernel} → Reach b k k1 → Moves b k1 k2 → Reach b k k2
