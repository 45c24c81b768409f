-- ===== src/Core/Timer.antt =====
-- The timer (src/core/timer.c) and the check that waits for it (src/core/check.c). The variable
-- `tick` is a `uint32_t`.
pub mod Ticks
use utero_archive.Base.{
  ℕ, zero, suc, ◌+◌, ◌/◌, ◌^◌, Bool, not, Option, none, some, List, [], ◌∷◌, ◌==◌, if◌then◌else◌,
  bit_and, u32,
}
use utero_archive.Core.Ports.{Hardware, port_byte_out}
use utero_archive.Core.Isr.{Interrupts, irq0, register_interrupt_handler}

unfoldable pub timer_callback : ℕ → ℕ
timer_callback tick = u32 (tick + 1)

unfoldable pub timer_tick : ℕ → ℕ
timer_tick tick = tick

-- The words that set the timer's divisor: its low byte and then its high one.
pub timer_program : ℕ → Hardware → Hardware
timer_program divisor hw =
    port_byte_out 0x40 (divisor / 2 ^ 8)
      (port_byte_out 0x40 (bit_and divisor 0xff) (port_byte_out 0x43 0x36 hw))

-- `none` is a division by zero, or a write outside of the array of handlers.
pub timer_init {ℓ} : {H : Type ℓ} → H → ℕ → Interrupts H → Option (Interrupts H)
timer_init callback freq s = elim (register_interrupt_handler irq0 callback s) [
  | none ↦ none
  | some s' ↦
      if freq == 0
      then none
      else some (record s' { hardware = timer_program (1193180 / freq) s'.hardware })
]

-- `n` interrupts of the timer.
pub callbacks : ℕ → ℕ → ℕ
callbacks zero tick = tick
callbacks (suc n) tick = callbacks n (timer_callback tick)

-- while (tick == timer_tick()) ; where the list says how many interrupts arrive before each test.
-- `none` is a loop that goes on behind the list.
pub check_loop : List ℕ → ℕ → ℕ → Option ℕ
check_loop [] start tick = none
check_loop (n ∷ arrivals) start tick =
    let later = check_loop arrivals start (callbacks n tick) in
    if start == timer_tick (callbacks n tick) then later else some (callbacks n tick)
