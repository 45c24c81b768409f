-- ===== src/Kernel/Start.antt =====
-- The start (src/kernel/kmain.c).
pub mod Printing
pub mod Arrivals
pub mod Devices
pub mod Memory
pub mod Whole
pub mod Started
use utero_archive.Base.{
  ℕ, zero, suc, ◌+◌, ◌-◌, ◌*◌, ◌/◌, ◌%◌, ◌^◌, ◌≤◌, ◌<◌, ◌≡◌, ◌≢◌, ◌⊎◌, ◌↔◌, inl, inr, refl, sym, ap,
  ◌∙◌, arith, Bool, ◌||◌, ◌&&◌, not, true, false, ◌==◌, ltb, leb, if◌then◌else◌, Option, some, none,
  List, [], ◌∷◌, ◌++◌, length, get_or, get_elem?, Bool-cases, u8, u16, u32, u64, bit_and, bit_or,
}
use utero_archive.Base.Text.{codes}
use utero_archive.Core.Ports.{Hardware, Io}
use utero_archive.Core.Idt.{Idt}
use utero_archive.Core.Isr.{
  Interrupts, Dispatch, call, panic, ignore, isr_init, isr_handler, irq_handler,
}
use utero_archive.Core.Isr.Exceptions.{breakpoint_handler, panic_format, panic_args}
use utero_archive.Core.Timer.{timer_callback, timer_init, timer_tick, check_loop}
use utero_archive.Core.Boot.{
  Validity, valid, invalid_magic, unaligned, multiboot_is_valid, tag_mmap, first_tag,
  find_multiboot_tag, read_multiboot_info,
}
use utero_archive.Core.Cmos.{Rtc, cmos_read_rtc}
use utero_archive.Mmu.Mmap.{Mmap, ReservedAreas}
use utero_archive.Mmu.Area.{memory_area, mmu_init}
use utero_archive.Drivers.Screen.{Screen, screen_init, screen_clear}
use utero_archive.Drivers.Serial.{serial_init, serial_com1, serial_speed_115200}
use utero_archive.Drivers.Keyboard.{keyboard_callback, keyboard_init}
use utero_archive.Libk.Printfk.{Arg, word, text, printfk, vprintfk, device_screen}
use utero_archive.Kernel.State.{
  Handler, breakpoint, timer, keyboard, Location, Build, Kernel, Step, ◌>>=◌, ◌>>◌, pure,
  put_screen, on_screen, set_hardware, put_hardware, on_hardware, interrupts, set_interrupts,
  put_interrupts, on_interrupts, given, irq_init, irq_disable, halt,
}
use utero_archive.Kernel.Panic.{panic_at}
use utero_archive.Kernel.Dispatch.{interrupt, pause}

abbrev pub print : Build → List ℕ → List Arg → Step (Unit {0})
print b format args = on_screen (printfk b.waits format args)

abbrev pub kernel_ascii : List ℕ
kernel_ascii =
    codes
      " _____ _____ _____ _____ _____ \n|  |  |_   _|   __| __  |     |\n|  |  | | | |   __|    -|  |  |\n|_____| |_| |_____|__|__|_____|"

abbrev pub kernel_name : List ℕ
kernel_name = codes "utero-archive"

abbrev pub kernel_version : List ℕ
kernel_version = codes "0.5.0"

unfoldable pub print_welcome_message : Build → Step (Unit {0})
print_welcome_message b = do
  print b (codes "%s\n") (text kernel_ascii ∷ [])
  print b (codes "%s %s / Built on: %s at %s\n\n")
      (text kernel_name ∷ text kernel_version ∷ text b.date ∷ text b.time ∷ [])

-- What `multiboot_is_valid` prints.
unfoldable pub print_validity : Build → Validity → Step (Unit {0})
print_validity b valid = pure tt
print_validity b (invalid_magic magic) =
    print b (codes "Invalid magic value: 0x%x") (word magic ∷ [])
print_validity b (unaligned addr) = print b (codes "Unaligned MBI: 0x%x") (word addr ∷ [])

unfoldable pub print_reserved : Build → ReservedAreas → Step (Unit {0})
print_reserved b r = do
  print b (codes "- multiboot_start = 0x%X, multiboot_end = 0x%X\n")
      (word r.multiboot_start ∷ word r.multiboot_end ∷ [])
  print b (codes "- kernel_start    = 0x%X, kernel_end    = 0x%X\n")
      (word r.kernel_start ∷ word r.kernel_end ∷ [])

-- The interrupts that arrive during the start: after a statement, by its number, and before each
-- test of the check's loop.
pub record Schedule : Type 0 where
  pub after : ℕ → List ℕ
  pub checks : List (List ℕ)

-- while (tick == timer_tick()) ; where `none` is a loop that goes on behind the list.
unfoldable pub check_wait : Build → List (List ℕ) → ℕ → Step (Unit {0})
check_wait b [] tick = λ k. none
check_wait b (ids ∷ more) tick = do
  pause b ids
  λ k.
      let later = check_wait b more tick k in
      if tick == timer_tick k.tick then later else some (tt, k)

unfoldable pub check_interrupts : Build → List (List ℕ) → Step (Unit {0})
check_interrupts b checks = do
  print b (codes "- checking interrupts... ") []
  λ k. check_wait b checks (timer_tick k.tick) k
  print b (codes "OK\n") []

unfoldable pub start_interrupts : Build → Schedule → Step (Unit {0})
start_interrupts b arrivals = do
  on_interrupts (isr_init b.isr b.irq breakpoint)
  irq_init
  pause b (arrivals.after 0)
  print b (codes "- interruptions enabled\n") []
  pause b (arrivals.after 1)
  on_interrupts (timer_init timer 50)
  pause b (arrivals.after 2)
  print b (codes "- clock (timer) enabled\n") []
  pause b (arrivals.after 3)
  check_interrupts b arrivals.checks
  on_hardware (serial_init serial_com1 serial_speed_115200)
  pause b (arrivals.after 4)
  on_interrupts (keyboard_init keyboard)
  pause b (arrivals.after 5)
  print b (codes "- keyboard routine enabled\n") []
  pause b (arrivals.after 6)

-- A tag that is missing is the null pointer, which is read as any other.
unfoldable pub start_memory : Build → ℕ → ReservedAreas → Step (Unit {0})
start_memory b mbi r = do
  tag ← λ k. given (find_multiboot_tag b.fuel k.screen.hardware.memory (first_tag mbi) tag_mmap) k
  area ← λ k. given (memory_area b.fuel k.screen.hardware.memory tag) k
  λ k. some (tt, record k { mmap = mmu_init area r })

unfoldable pub print_date : Build → Rtc → Step (Unit {0})
print_date b rtc =
    print b (codes "\nHello Human, today's date and time is %2d/%2d/%2d %2d:%2d:%2d UTC\n") (
      word rtc.year
      ∷ word rtc.month
      ∷ word rtc.day
      ∷ word rtc.hours
      ∷ word rtc.minutes
      ∷ word rtc.seconds
      ∷ [])

unfoldable pub start : Build → Schedule → ℕ → Step (Unit {0})
start b arrivals addr = do
  r ← λ k. given (read_multiboot_info b.fuel k.screen.hardware.memory addr) k
  print_welcome_message b
  print_reserved b r
  start_interrupts b arrivals
  start_memory b addr r
  pause b (arrivals.after 7)
  print b (codes "- frame allocator and paging enabled\n") []
  pause b (arrivals.after 8)
  rtc ← on_hardware (cmos_read_rtc b.waits b.fuel)
  pause b (arrivals.after 9)
  print_date b rtc
  pause b (arrivals.after 10)
  print b (codes "$ ") []
  pause b (arrivals.after 11)

unfoldable pub refuse : Build → Validity → Step (Unit {0})
refuse b v = do print_validity b v; panic_at b b.kmain_panic (codes "invalid multiboot") []

-- What follows the test of the boot loader's call.
unfoldable pub start_if_valid : Build → Schedule → ℕ → Validity → Step (Unit {0})
start_if_valid b arrivals addr valid = start b arrivals addr
start_if_valid b arrivals addr (invalid_magic magic) = refuse b (invalid_magic magic)
start_if_valid b arrivals addr (unaligned mbi) = refuse b (unaligned mbi)

-- Up to the loop that waits for interrupts.
unfoldable pub kmain : Build → Schedule → ℕ → ℕ → Step (Unit {0})
kmain b arrivals magic addr = do
  on_screen (λ s. some (screen_init s))
  on_screen screen_clear
  start_if_valid b arrivals addr (multiboot_is_valid magic addr)
