-- ===== src/Kernel/Start/Whole.antt =====
-- The whole start.
use utero_archive.Base.{ℕ, ◌+◌, ◌^◌, ◌<◌, ◌≡◌, refl, arith, none, List, [], ◌∷◌}
use utero_archive.Base.Memory.{Memory}
use utero_archive.Base.Text.{codes}
use utero_archive.Core.Idt.{IdtGate, gate_offset}
use utero_archive.Core.Cmos.{Rtc, convert, cmos_read_rtc}
use utero_archive.Core.Cmos.Reading.{Round, script}
use utero_archive.Core.Boot.{read_multiboot_info}
use utero_archive.Core.Boot.Sections.{areas_of}
use utero_archive.Mmu.Mmap.{Mmap}
use utero_archive.Mmu.Area.{mmu_init, area_entry_size, first_entry}
use utero_archive.Mmu.Area.Entries.{entry_list}
use utero_archive.Drivers.Screen.{Screen}
use utero_archive.Drivers.Screen.Within.{Within}
use utero_archive.Libk.Printfk.{isdigitk}
use utero_archive.Libk.Printfk.Render.{parse_format}
use utero_archive.Kernel.State.{Build, Kernel, Step, ◌>>=◌, ◌>>◌, given, on_hardware}
use utero_archive.Kernel.Dispatch.{pause}
use utero_archive.Kernel.Start.{
  Schedule, print, print_welcome_message, print_reserved, print_date, start_interrupts,
  start_memory, start,
}
use utero_archive.Kernel.Start.Printing.{
  IsBuild, literal-Runs, welcome-Runs, reserved-Runs, date-Runs,
}
use utero_archive.Kernel.Start.Arrivals.{IsSchedule, AllLines-AllCalm, with_keyboard-IsCalm}
use utero_archive.Kernel.Start.Devices.{ready, start_interrupts-Runs}
use utero_archive.Kernel.Start.Memory.{
  IsBoot, IsClock, areas_of-IsAreas, read-Runs, memory-Runs, clock-Runs, clock-IsTime,
}
use utero_archive.Kernel.Runs.{Runs, shows, shown, then-Runs, and-Runs}
use utero_archive.Kernel.Runs.Served.{pause-Runs}

-- What the kernel needs of the machine to start: nothing handled yet, addresses of 64 bits, the
-- boot loader's information, interrupts of the timer and of no key, and a clock that settles.
pub record IsMachine (b : Build) (arrivals : Schedule) (k : Kernel) : Type 0 where
  pub mbi : ℕ
  pub stop : ℕ
  pub tag : ℕ
  pub count : ℕ
  pub tags : List ℕ
  pub first : Round
  pub rounds : List Round
  pub reading : Rtc
  pub reg_b : ℕ
  pub rest : List ℕ
  pub build : IsBuild b
  pub isr : (n : ℕ) → b.isr n < 2 ^ 64
  pub irq : (n : ℕ) → b.irq n < 2 ^ 64
  pub unset : (n : ℕ) → k.interrupt_handlers n ≡ none
  pub tick : k.tick < 2 ^ 32
  pub boot : IsBoot b k.screen.hardware.memory mbi stop tag count tags
  pub schedule : IsSchedule arrivals
  pub clock : IsClock b first rounds reading reg_b
  pub input : k.screen.hardware.input ≡ script (first ∷ rounds) (reg_b ∷ rest)

module _ (b : Build) (arrivals : Schedule) (k0 : Kernel) (machine : IsMachine b arrivals k0) where
  open machine use {mbi, stop, tag, count, tags, reading, reg_b, rest}

  abbrev mem : Memory
  mem = k0.screen.hardware.memory

  abbrev pub managed : Mmap
  managed =
      mmu_init (entry_list count mem (area_entry_size mem tag) (first_entry tag))
        (areas_of mem mbi tags stop)

  -- The kernel behind the start, but for its screen and its tick.
  abbrev running : (ℕ → IdtGate) → Kernel
  running gates = record (ready k0 gates) { mmap = managed }

  abbrev pub script_left : List ℕ
  script_left = script (machine.first ∷ machine.rounds) (reg_b ∷ rest)

  clock_part :
      (gates : ℕ → IdtGate) (s : Screen) (tick : ℕ)
      → Within 1502 mem script_left s
      → tick < 2 ^ 32
      → Runs 1774 mem rest tt
          (running gates)
          (do
            pause b (arrivals.after 8)
            rtc ← on_hardware (cmos_read_rtc b.waits b.fuel)
            pause b (arrivals.after 9)
            print_date b rtc
            pause b (arrivals.after 10)
            print b (codes "$ ") []
            pause b (arrivals.after 11))
          (shows s tick (running gates))
  unfolding parse_format isdigitk
  clock_part gates s tick w small =
      let k = running gates in
      let calm = with_keyboard-IsCalm k0.interrupt_handlers machine.unset in
      and-Runs (pause b (arrivals.after 8)) _
        (pause-Runs b (arrivals.after 8) (shows s tick k) w small
          (AllLines-AllCalm _ _ calm (machine.schedule.after 8)) refl)
        (λ s1 t1 w1 m1.
          then-Runs (on_hardware (cmos_read_rtc b.waits b.fuel)) _
            (clock-Runs (shows s1 t1 k) machine.clock w1 m1)
            (λ s2 t2 w2 m2.
              and-Runs (pause b (arrivals.after 9)) _
                (pause-Runs b (arrivals.after 9) (shows s2 t2 k) w2 m2
                  (AllLines-AllCalm _ _ calm (machine.schedule.after 9)) refl)
                (λ s3 t3 w3 m3.
                  and-Runs (print_date b (convert reg_b reading)) _
                    (date-Runs b (shows s3 t3 k) m3 (convert reg_b reading) 1502
                      (clock-IsTime machine.clock) (omega arith) w3)
                    (λ s4 t4 w4 m4.
                      and-Runs (pause b (arrivals.after 10)) _
                        (pause-Runs b (arrivals.after 10) (shows s4 t4 k) w4 m4
                          (AllLines-AllCalm _ _ calm (machine.schedule.after 10)) refl)
                        (λ s5 t5 w5 m5.
                          and-Runs (print b (codes "$ ") []) _
                            (literal-Runs b (shows s5 t5 k) m5 1772 (codes "$ ") refl refl w5
                              (omega arith))
                            (λ s6 t6 w6 m6.
                              pause-Runs b (arrivals.after 11) (shows s6 t6 k) w6 m6
                                (AllLines-AllCalm _ _ calm (machine.schedule.after 11)) refl))))))

  memory_part :
      (gates : ℕ → IdtGate) (s : Screen) (tick : ℕ)
      → Within 1386 mem script_left s
      → tick < 2 ^ 32
      → Runs 1774 mem rest tt
          (running gates)
          (do
            start_memory b mbi (areas_of mem mbi tags stop)
            pause b (arrivals.after 7)
            print b (codes "- frame allocator and paging enabled\n") []
            pause b (arrivals.after 8)
            rtc ← on_hardware (cmos_read_rtc b.waits b.fuel)
            pause b (arrivals.after 9)
            print_date b rtc
            pause b (arrivals.after 10)
            print b (codes "$ ") []
            pause b (arrivals.after 11))
          (shows s tick (ready k0 gates))
  unfolding parse_format isdigitk
  memory_part gates s tick w small =
      let k = running gates in
      let calm = with_keyboard-IsCalm k0.interrupt_handlers machine.unset in
      and-Runs (start_memory b mbi (areas_of mem mbi tags stop)) _
        (memory-Runs b machine.boot (shows s tick (ready k0 gates)) w small
          (areas_of mem mbi tags stop))
        (λ s1 t1 w1 m1.
          and-Runs (pause b (arrivals.after 7)) _
            (pause-Runs b (arrivals.after 7) (shows s1 t1 k) w1 m1
              (AllLines-AllCalm _ _ calm (machine.schedule.after 7)) refl)
            (λ s2 t2 w2 m2.
              and-Runs (print b (codes "- frame allocator and paging enabled\n") []) _
                (literal-Runs b (shows s2 t2 k) m2 1386
                  (codes "- frame allocator and paging enabled\n") refl refl w2 (omega arith))
                (λ s3 t3 w3 m3. shown (clock_part gates s3 t3 w3 m3))))

  -- The start, for a table whose gates lead to the entry points of its vectors.
  pub record Set (i : ℕ) (input : List ℕ) (next : (ℕ → IdtGate) → Kernel) (m : Step (Unit {0}))
      (k : Kernel) : Type 0 where
    pub gates : ℕ → IdtGate
    pub exceptions : (n : ℕ) → n < 32 → gate_offset (gates n) ≡ b.isr n
    pub lines : (n : ℕ) → n < 5 → gate_offset (gates (32 + n)) ≡ b.irq n
    pub runs : Runs i mem input tt (next gates) m k

  then_set :
      {A : Type 0} {i : ℕ} {left : List ℕ} {a : A} {k k1 : Kernel} (m : Step A)
      (f : A → Step (Unit {0}))
      → Runs i mem left a k1 m k
      → ((s : Screen) (tick : ℕ)
          → Within i mem left s
          → tick < 2 ^ 32
          → Set 1774 rest running (f a) (shows s tick k1))
      → Set 1774 rest running (m >>= f) k
  then_set m f r more =
      let q = more r.screen r.tick r.within r.small in
      record {
        gates = q.gates;
        exceptions = q.exceptions;
        lines = q.lines;
        runs = record {
          screen = q.runs.screen;
          tick = q.runs.tick;
          returns = rw (r.returns, ◌>>=◌) q.runs.returns;
          within = q.runs.within;
          small = q.runs.small;
        };
      }

  pub start-Runs :
      (s : Screen)
      → Within 0 mem script_left s
      → Set 1774 rest running (start b arrivals mbi) (shows s k0.tick k0)
  unfolding start
  start-Runs s w =
      then_set (λ k. given (read_multiboot_info b.fuel k.screen.hardware.memory mbi) k) _
        (read-Runs b machine.boot (shows s k0.tick k0) w machine.tick)
        (λ s1 t1 w1 m1.
          then_set (print_welcome_message b) _ (welcome-Runs b (shows s1 t1 k0) m1 machine.build w1)
            (λ s2 t2 w2 m2.
              then_set (print_reserved b (areas_of mem mbi tags stop)) _
                (reserved-Runs b (shows s2 t2 k0) m2 (areas_of mem mbi tags stop)
                  (areas_of-IsAreas machine.boot) w2)
                (λ s3 t3 w3 m3.
                  let (gates, isr, irq, r) =
                    start_interrupts-Runs b arrivals machine.schedule (shows s3 t3 k0) machine.unset
                      machine.isr machine.irq w3 m3 in
                  record {
                    gates = gates;
                    exceptions = isr;
                    lines = irq;
                    runs =
                        and-Runs (start_interrupts b arrivals) _ r
                          (λ s4 t4 w4 m4. shown (memory_part gates s4 t4 w4 m4));
                  })))
