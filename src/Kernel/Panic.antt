-- ===== src/Kernel/Panic.antt =====
-- A panic (src/kernel/panic.c, src/include/kernel/panic.h).
pub mod Halting
pub mod Exception
pub mod Refusal
use utero_archive.Base.{
  ℕ, zero, suc, ◌+◌, Bool, true, false, Option, none, some, List, [], ◌∷◌, ◌++◌, if◌then◌else◌,
}
use utero_archive.Base.Text.{codes}
use utero_archive.Core.Ports.{Hardware, Io}
use utero_archive.Core.Idt.{Idt}
use utero_archive.Core.Isr.{
  Interrupts, Dispatch, call, panic, ignore, isr_init, isr_handler, irq_handler,
}
use utero_archive.Core.Isr.Exceptions.{breakpoint_handler, panic_format, panic_args}
use utero_archive.Core.Timer.{timer_callback, timer_init, timer_tick, check_loop}
use utero_archive.Core.Boot.{
  Validity, valid, invalid_magic, unaligned, multiboot_is_valid, tag_mmap, first_tag,
  find_multiboot_tag, read_multiboot_info,
}
use utero_archive.Core.Cmos.{Rtc, cmos_read_rtc}
use utero_archive.Mmu.Mmap.{Mmap, ReservedAreas}
use utero_archive.Mmu.Area.{memory_area, mmu_init}
use utero_archive.Drivers.Screen.{Screen, screen_init, screen_clear}
use utero_archive.Drivers.Serial.{serial_init, serial_com1, serial_speed_115200}
use utero_archive.Drivers.Keyboard.{keyboard_callback, keyboard_init}
use utero_archive.Libk.Printfk.{Arg, word, text, printfk, vprintfk, device_screen}
use utero_archive.Kernel.State.{
  Handler, breakpoint, timer, keyboard, Location, Build, Kernel, Step, ◌>>=◌, ◌>>◌, pure,
  put_screen, on_screen, set_hardware, put_hardware, on_hardware, interrupts, set_interrupts,
  put_interrupts, on_interrupts, given, irq_init, irq_disable, halt,
}

unfoldable pub kernel_panic : ℕ → List ℕ → List Arg → Step (Unit {0})
kernel_panic waits format args = do
  on_screen (vprintfk waits device_screen format args)
  on_screen (printfk waits (codes "\nSystem halted!\n") [])
  irq_disable
  halt

-- The macro PANIC.
unfoldable pub panic_at : Build → Location → List ℕ → List Arg → Step (Unit {0})
panic_at b at format args =
    kernel_panic b.waits (codes "\nPANIC in %s:%d:%s(): " ++ (format ++ codes "\n%s"))
      (text at.file ∷ word at.line ∷ text at.function ∷ (args ++ text [] ∷ []))
