-- ===== src/Kernel/Dispatch.antt =====
-- Exceptions and interrupts on the whole state (src/core/isr.c), and the functions that the kernel
-- registers for them.
use utero_archive.Base.{ℕ, if◌then◌else◌, some, none, List, [], ◌∷◌}
use utero_archive.Core.Isr.{Dispatch, call, panic, ignore, isr_handler, irq_handler}
use utero_archive.Core.Isr.Exceptions.{breakpoint_handler, panic_format, panic_args}
use utero_archive.Core.Timer.{timer_callback}
use utero_archive.Drivers.Keyboard.{keyboard_callback}
use utero_archive.Kernel.State.{
  Handler, breakpoint, timer, keyboard, Build, Step, ◌>>◌, pure, on_screen, interrupts,
  set_interrupts,
}
use utero_archive.Kernel.Panic.{panic_at}

-- The calls of the registered functions.
unfoldable pub run_handler : Build → Handler → ℕ → Step (Unit {0})
run_handler b breakpoint stack = on_screen (breakpoint_handler b.waits stack)
run_handler b timer stack = λ k. some (tt, record k { tick = timer_callback k.tick })
run_handler b keyboard stack = on_screen (keyboard_callback b.waits)

unfoldable pub run_dispatch : Build → Dispatch Handler → Step (Unit {0})
run_dispatch b (call h stack) = run_handler b h stack
run_dispatch b (panic id stack) =
    λ k. panic_at b b.isr_panic panic_format (panic_args k.screen.hardware.memory id stack) k
run_dispatch b ignore = pure tt

-- An exception and an interrupt of a line, with the address of the saved registers.
unfoldable pub exception : Build → ℕ → ℕ → Step (Unit {0})
exception b id stack_addr k = elim (isr_handler id stack_addr (interrupts k)) [
  | none ↦ none
  | some d ↦ run_dispatch b d k
]

unfoldable pub interrupt : Build → ℕ → ℕ → Step (Unit {0})
interrupt b id stack_addr k = elim (irq_handler id stack_addr (interrupts k)) [
  | none ↦ none
  | some (d, i) ↦ run_dispatch b d (set_interrupts i k)
]

-- The interrupts of some lines, one after the other.
unfoldable pub deliver : Build → List ℕ → Step (Unit {0})
deliver b [] = pure tt
deliver b (id ∷ ids) = interrupt b id b.stack >> deliver b ids

-- What the processor does between two statements: it serves the interrupts that arrive, if they
-- are enabled.
unfoldable pub pause : Build → List ℕ → Step (Unit {0})
pause b ids k = if k.interrupts_enabled then deliver b ids k else pure tt k
