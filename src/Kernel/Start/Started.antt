-- ===== src/Kernel/Start/Started.antt =====
-- The start ends, and what it leaves.
use utero_archive.Base.{
  ℕ, ◌+◌, ◌%◌, ◌^◌, ◌<◌, ◌≡◌, ◌≢◌, refl, ◌∙◌, arith, true, false, ◌==◌, Option, some, none,
}
use utero_archive.Core.Idt.{gate_offset}
use utero_archive.Core.Isr.{exception_bp, irq0}
use utero_archive.Core.Boot.{valid, multiboot2_magic_value, multiboot_is_valid}
use utero_archive.Core.Boot.Tags.{multiboot_is_valid_lem}
use utero_archive.Drivers.Keyboard.{irq1}
use utero_archive.Drivers.Screen.Within.{Within, screen_clear-Stays}
use utero_archive.Kernel.State.{breakpoint, timer, keyboard, Build, Kernel, ◌>>=◌}
use utero_archive.Kernel.Start.{Schedule, start_if_valid, kmain}
use utero_archive.Kernel.Start.Arrivals.{with_breakpoint, with_timer, with_keyboard}
use utero_archive.Kernel.Start.Whole.{IsMachine, managed, start-Runs}

-- What is set up: the gates, the handlers and the memory map.
pub record IsSetUp (b : Build) (arrivals : Schedule) (k0 : Kernel)
    (machine : IsMachine b arrivals k0) (k : Kernel) : Type 0 where
  pub exceptions : (n : ℕ) → n < 32 → gate_offset (k.idt n) ≡ b.isr n
  pub lines : (n : ℕ) → n < 5 → gate_offset (k.idt (32 + n)) ≡ b.irq n
  pub on_breakpoint : k.interrupt_handlers exception_bp ≡ some breakpoint
  pub on_timer : k.interrupt_handlers irq0 ≡ some timer
  pub on_key : k.interrupt_handlers irq1 ≡ some keyboard
  pub unhandled : (n : ℕ) → n ≢ exception_bp → n ≢ irq0 → n ≢ irq1 → k.interrupt_handlers n ≡ none
  pub frames : k.mmap ≡ managed b arrivals k0 machine

-- What the start leaves, with the memory and the input of the state `k0` before it.
pub record Started (b : Build) (arrivals : Schedule) (k0 : Kernel)
    (machine : IsMachine b arrivals k0) (result : Option (Unit {0} × Kernel)) : Type 0 where
  pub after : Kernel
  pub returns : result ≡ some (tt, after)
  pub set_up : IsSetUp b arrivals k0 machine after
  pub enabled : after.interrupts_enabled ≡ true
  pub halted : after.halted ≡ k0.halted
  pub tick : after.tick < 2 ^ 32
  pub screen : Within 1774 k0.screen.hardware.memory machine.rest after.screen

-- On a machine with no handlers yet, entry points below 2^64, build texts that fit, the boot loader's
-- information and memory map off the display, a timer that interrupts some test of the check and a
-- clock that settles, and with interrupts of no key and of no breakpoint after any statement, `kmain`
-- called with the magic number and an aligned address gets to its last loop: the gates lead to the
-- entry points, the breakpoint, the timer and the keyboard have their handlers and no other vector
-- has one, interrupts are enabled, the memory map is that of the tag with the areas that the
-- information reserves, and of memory the display alone has changed.
pub kmain-Started :
    (b : Build) (arrivals : Schedule) (k0 : Kernel) (machine : IsMachine b arrivals k0)
    → machine.mbi % 8 ≡ 0
    → Started b arrivals k0 machine (kmain b arrivals multiboot2_magic_value machine.mbi k0)
unfolding kmain start_if_valid
kmain-Started b arrivals k0 machine aligned =
    let c = screen_clear-Stays k0.screen in
    let w = c.within in
    let accepted : multiboot_is_valid multiboot2_magic_value machine.mbi ≡ valid =
      (multiboot_is_valid_lem multiboot2_magic_value machine.mbi).0.1 (refl, aligned) in
    let q = start-Runs b arrivals k0 machine c.after (record {
      buffer = w.buffer;
      column = w.column;
      placed = w.placed;
      memory = w.memory;
      unread = w.unread ∙ machine.input;
    }) in
    let h = k0.interrupt_handlers in
    record {
      after = record k0 {
        screen = q.runs.screen;
        idt = q.gates;
        interrupt_handlers = with_keyboard (with_timer (with_breakpoint h));
        tick = q.runs.tick;
        mmap = managed b arrivals k0 machine;
        interrupts_enabled = true;
      };
      returns = rw (c.returns, ◌>>=◌, accepted) q.runs.returns;
      set_up = record {
        exceptions = q.exceptions;
        lines = q.lines;
        on_breakpoint = refl;
        on_timer = refl;
        on_key = refl;
        unhandled = λ n not_bp not_timer not_key.
            let no_bp : (n == exception_bp) ≡ false = ground arith in
            let no_timer : (n == irq0) ≡ false = ground arith in
            let no_key : (n == irq1) ≡ false = ground arith in
            rw (no_key, no_timer, no_bp) (machine.unset n);
        frames = refl;
      };
      enabled = refl;
      halted = refl;
      tick = q.runs.small;
      screen = q.runs.within;
    }
