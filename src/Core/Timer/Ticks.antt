-- ===== src/Core/Timer/Ticks.antt =====
-- The count of the ticks, the divisor that the device is told, and that the check ends.
use native.Mathlib.Nat.{mod-eq_of_lt, div-lt_iff_lt-mul}
use utero_archive.Base.{
  ℕ, zero, suc, ◌+◌, ◌*◌, ◌/◌, ◌%◌, ◌^◌, ◌≤◌, ◌<◌, ◌≡◌, ◌≢◌, refl, ◌∙◌, true, false, ◌↔◌, arith,
  ◌==◌, bit_and, u32, Option, some, List, [], ◌∷◌, ◌++◌,
}
use utero_archive.Base.Bits.{and_low}
use utero_archive.Core.Ports.{wrote}
use utero_archive.Core.Isr.{Interrupts, irq0}
use utero_archive.Core.Isr.Setup.{registered, register_interrupt_handler-registered}
use utero_archive.Core.Timer.{
  timer_callback, timer_tick, timer_program, timer_init, callbacks, check_loop,
}

pub callbacks_lem : (n tick : ℕ) → tick < 2 ^ 32 → callbacks n tick ≡ u32 (tick + n)
unfolding callbacks timer_callback
callbacks_lem zero tick h = omega arith
callbacks_lem (suc n) tick h = callbacks_lem n (u32 (tick + 1)) (omega arith) ∙ omega arith

-- What `timer_init` leaves: the callback is the handler of the first interrupt line, and the device
-- has been told the two bytes of a divisor.
pub record Programmed {ℓ} {H : Type ℓ} (callback : H) (freq : ℕ) (s : Interrupts H)
    (result : Option (Interrupts H)) : Type ℓ where
  pub after : Interrupts H
  pub returns : result ≡ some after
  pub handler : after.interrupt_handlers irq0 ≡ some callback
  pub others : (k : ℕ) → k ≢ irq0 → after.interrupt_handlers k ≡ s.interrupt_handlers k
  pub shape : after ≡ record (registered irq0 callback s) {
    hardware = record (s.hardware) { log = after.hardware.log };
  }
  pub low : ℕ
  pub high : ℕ
  pub told :
      after.hardware.log ≡ wrote 0x40 high ∷ wrote 0x40 low ∷ wrote 0x43 0x36 ∷ s.hardware.log
  pub divisor : high * 256 + low ≡ 1193180 / freq % 65536
  pub exact : (high * 256 + low ≡ 1193180 / freq) ↔ (19 ≤ freq)

divisor_bound : (freq : ℕ) → 0 < freq → (1193180 / freq < 65536) ↔ (19 ≤ freq)
divisor_bound freq pos =
    let iff : (1193180 / freq < 65536) ↔ (1193180 < 65536 * freq) = div-lt_iff_lt-mul pos in
    (λ h. let wide : 1193180 < 65536 * freq = iff.0 h in omega arith, λ h. iff.1 (omega arith))

-- For every frequency but 0 `timer_init` returns: the callback handles the first interrupt line
-- and no other handler changes, and the device has been told 1193180 / freq in 16 bits, the low
-- byte first; that is the quotient itself exactly from 19 hertz on.
pub timer_init-Programmed {ℓ} :
    {H : Type ℓ} (callback : H) (freq : ℕ) (s : Interrupts H)
    → 0 < freq
    → Programmed callback freq s (timer_init callback freq s)
unfolding timer_init timer_program
timer_init-Programmed callback freq s pos =
    let nonzero : (freq == 0) ≡ false = ground arith in
    let d = 1193180 / freq in
    let bytes : d / 2 ^ 8 % 2 ^ 8 * 256 + bit_and d 0xff % 2 ^ 8 ≡ d % 65536 =
      omega (arith, and_low 8 d) in
    let bound = divisor_bound freq pos in
    record {
      after = record (registered irq0 callback s) { hardware = timer_program d s.hardware };
      returns =
          rw
            (
              register_interrupt_handler-registered irq0 callback s (omega arith),
              timer_init,
              nonzero,
            )
            refl;
      handler = refl;
      others = λ k ne. let other : (k == irq0) ≡ false = ground arith in rw other refl;
      shape = refl;
      low = bit_and d 0xff % 2 ^ 8;
      high = d / 2 ^ 8 % 2 ^ 8;
      told = refl;
      divisor = bytes;
      exact = (λ e. bound.0 (omega (arith, bytes)), λ h. bytes ∙ mod-eq_of_lt (bound.1 h));
    }

abbrev pub AllZero : List ℕ → Type 0
AllZero [] = Unit {0}
AllZero (n ∷ ns) = (n ≡ 0) × AllZero ns

-- The check waits while no interrupt arrives and goes on at the first test behind some, if those are
-- fewer than 2^32: with the tick that then stands there, whatever its value was before, also when
-- it wraps.
pub check_loop_lem :
    (quiet : List ℕ) (n : ℕ) (rest : List ℕ) (tick : ℕ)
    → AllZero quiet
    → tick < 2 ^ 32
    → 0 < n
    → n < 2 ^ 32
    → check_loop (quiet ++ (n ∷ rest)) tick tick ≡ some (u32 (tick + n))
unfolding check_loop timer_tick
check_loop_lem [] n rest tick z small pos bound =
    let moved : (tick == u32 (tick + n)) ≡ false = ground arith in
    rw (callbacks_lem n tick small, moved) refl
check_loop_lem (q ∷ quiet) n rest tick (e, z) small pos bound =
    let none' : callbacks q tick ≡ tick = callbacks_lem q tick small ∙ omega arith in
    let same : (tick == tick) ≡ true = ground arith in
    rw (none', same) (check_loop_lem quiet n rest tick z small pos bound)
