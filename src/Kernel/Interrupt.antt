-- ===== src/Kernel/Interrupt.antt =====
-- The interrupts of the timer, on the whole state.
use utero_archive.Base.{
  ℕ, zero, suc, ◌+◌, ◌^◌, ◌<◌, ◌≡◌, refl, ap, ◌∙◌, arith, none, some, List, ◌∷◌, u32,
}
use utero_archive.Core.Ports.{PortEvent, wrote}
use utero_archive.Core.Isr.{irq0, irq_handler, end_of_interrupt}
use utero_archive.Core.Timer.{timer_callback}
use utero_archive.Kernel.State.{Build, Kernel, timer, Step, set_hardware}
use utero_archive.Kernel.Dispatch.{interrupt, run_dispatch, run_handler}

-- `n` interrupts of the first line.
unfoldable pub timer_interrupts : ℕ → Build → ℕ → Step (Unit {0})
timer_interrupts zero b stack k = some (tt, k)
timer_interrupts (suc n) b stack k = elim (interrupt b irq0 stack k) [
  | none ↦ none
  | some (u, k') ↦ timer_interrupts n b stack k'
]

unfoldable pub acknowledged : ℕ → List PortEvent → List PortEvent
acknowledged zero log = log
acknowledged (suc n) log = acknowledged n (wrote 0x20 0x20 ∷ log)

-- The state behind `n` interrupts of the timer.
abbrev pub ticked : ℕ → Kernel → Kernel
ticked n k =
    record (set_hardware (record (k.screen.hardware) { log = acknowledged n k.screen.hardware.log })
      k) { tick = u32 (k.tick + n) }

pub timer_interrupt :
    (b : Build) (stack : ℕ) (k : Kernel)
    → k.interrupt_handlers irq0 ≡ some timer
    → interrupt b irq0 stack k ≡ some (tt, ticked 1 k)
unfolding interrupt run_dispatch run_handler timer_callback irq_handler end_of_interrupt
    acknowledged
timer_interrupt b stack k e = rw e refl

ticked-suc : (n : ℕ) (k : Kernel) → ticked n (ticked 1 k) ≡ ticked (suc n) k
unfolding acknowledged
ticked-suc n k = ap (λ t. record (ticked n (ticked 1 k)) { tick = t }) (omega arith)

-- While the timer's callback is the handler of line 0, any number of its interrupts is served:
-- the tick is that much higher, modulo 2^32, the first controller has been told the end of each
-- interrupt and the second one nothing, and the rest of the kernel is as it was.
pub timer_interrupts-ticked :
    (n : ℕ) (b : Build) (stack : ℕ) (k : Kernel)
    → k.interrupt_handlers irq0 ≡ some timer
    → k.tick < 2 ^ 32
    → timer_interrupts n b stack k ≡ some (tt, ticked n k)
unfolding timer_interrupts acknowledged
timer_interrupts-ticked zero b stack k e small =
    ap (λ t. some (tt, record k { tick = t })) (omega arith)
timer_interrupts-ticked (suc n) b stack k e small =
    rw (timer_interrupt b stack k e, timer_interrupts)
      (timer_interrupts-ticked n b stack (ticked 1 k) e (omega arith)
        ∙ ap (λ k'. some (tt, k')) (ticked-suc n k))
