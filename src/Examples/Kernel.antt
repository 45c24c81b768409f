-- ===== src/Examples/Kernel.antt =====
-- The theorems on the whole kernel at concrete inputs.
use utero_archive.Base.{
  ℕ, ◌-◌, ◌^◌, ◌≢◌, refl, arith, true, false, ◌==◌, if◌then◌else◌, some, none, [],
}
use utero_archive.Base.Text.{codes}
use utero_archive.Core.Boot.{multiboot2_magic_value}
use utero_archive.Core.Boot.Tags.{multiboot_is_valid_lem}
use utero_archive.Core.Isr.{irq0}
use utero_archive.Drivers.Screen.{video_address}
use utero_archive.Kernel.State.{Build, Kernel, breakpoint, timer, Location}
use utero_archive.Kernel.Start.{Schedule, kmain}
use utero_archive.Kernel.Panic.Halting.{Halted}
use utero_archive.Kernel.Panic.Refusal.{kmain-Halted}
use utero_archive.Examples.Core.{empty_idt, powered_on}
use utero_archive.Examples.Mmu.{small}

abbrev pub place : Location
place = record { file = codes "isr.c"; line = 141; function = codes "isr_handler" }

abbrev pub build : Build
build = record {
  waits = 9;
  fuel = 9;
  isr = λ k. 0x100000;
  irq = λ k. 0x200000;
  stack = 0x9000;
  kmain_panic = place;
  isr_panic = place;
  date = codes "today";
  time = codes "now";
}

-- A kernel with the handlers of the breakpoint and the timer, at its last tick before the wrap.
abbrev pub running : Kernel
running = record {
  screen = record {
    screen_scheme = 7;
    framebuffer = video_address;
    screen_col = 2;
    screen_row = 22;
    hardware = powered_on;
  };
  idt = empty_idt;
  interrupt_handlers =
      λ k. if k == 3 then some breakpoint else if k == irq0 then some timer else none;
  tick = 2 ^ 32 - 1;
  mmap = small;
  interrupts_enabled = true;
  halted = false;
}

abbrev quiet : Schedule
quiet = record { after = λ k. []; checks = [] }

refused : ◌≢◌ {A = ℕ} 0x2BADB002 multiboot2_magic_value
refused e = absurd (omega arith)

-- Another boot loader.
kmain-Halted_example : Halted running (kmain build quiet 0x2BADB002 0x9000 running)
kmain-Halted_example =
    kmain-Halted build quiet 0x2BADB002 0x9000 running
      (λ e. refused ((multiboot_is_valid_lem 0x2BADB002 0x9000).0.0 e).0)
      (record { file = refl; line = omega arith; function = refl })
