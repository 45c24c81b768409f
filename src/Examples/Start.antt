-- ===== src/Examples/Start.antt =====
-- The theorems on the start of the kernel at a concrete machine.
use utero_archive.Asm.Cpu.{Cpu}
use utero_archive.Asm.Interrupt.{on_line}
use utero_archive.Asm.Interrupt.Calm.{Resumed}
use utero_archive.Asm.Interrupt.Stop.{Stopped}
use utero_archive.Asm.Interrupt.Reached.{kmain-Resumed, kmain-Stopped}
use utero_archive.Examples.Asm.{kept_registers, running_on, running_on-IsCpu}
use utero_archive.Base.{
  ◌-◌, ◌^◌, ◌<◌, ◌≡◌, ◌⊎◌, inl, refl, ap, arith, not, true, false, ◌==◌, some, none, [], ◌∷◌,
}
use utero_archive.Base.Memory.{load}
use utero_archive.Base.Text.{codes}
use utero_archive.Core.Boot.{multiboot2_magic_value, next_tag}
use utero_archive.Core.Boot.Tags.{first_of_type}
use utero_archive.Core.Boot.Sections.{all_sections, tag_sections, section_list}
use utero_archive.Core.Cmos.Clock.{shows_24}
use utero_archive.Core.Cmos.Reading.{script}
use utero_archive.Kernel.State.{Build, Kernel, Location}
use utero_archive.Kernel.Start.{Schedule, kmain}
use utero_archive.Kernel.Start.Arrivals.{IsSchedule, ticks}
use utero_archive.Kernel.Start.Printing.{IsBuild}
use utero_archive.Kernel.Start.Memory.{IsBoot, IsClock}
use utero_archive.Kernel.Start.Whole.{IsMachine}
use utero_archive.Kernel.Start.Started.{Started, kmain-Started}
use utero_archive.Core.Isr.{exception_bp, irq0}
use utero_archive.Drivers.Screen.{screen_width}
use utero_archive.Kernel.Dispatch.{exception, interrupt}
use utero_archive.Kernel.Start.Started.{IsSetUp}
use utero_archive.Kernel.Reach.{Reach, start, later, key, pressed}
use utero_archive.Kernel.Reach.Outcome.{IsAlive, IsStopped}
use utero_archive.Kernel.Reach.Served.{kmain-IsSetUp, kmain-exception, kmain-interrupt}
use utero_archive.Kernel.Panic.Halting.{IsLocation}
use utero_archive.Mmu.Mmap.{mmap_allocate_frame}
use utero_archive.Mmu.Mmap.Chunks.{chunks, entry_chunks, chunks_from}
use utero_archive.Mmu.Mmap.Frames.{IsMap}
use utero_archive.Mmu.Area.{mmu_init}
use utero_archive.Mmu.Area.Entries.{entry_list}
use utero_archive.Kernel.Frames.{Apart}
use utero_archive.Kernel.Start.Whole.{managed}
use utero_archive.Kernel.Reach.Allocation.{kmain-Apart}
use utero_archive.Core.Boot.{add_section}
use utero_archive.Core.Boot.Sections.{areas_of, add_all}
use utero_archive.Examples.Boot.{pages, areas, areas-IsMap}
use utero_archive.Examples.Core.{empty_idt}
use utero_archive.Examples.Mmu.{small}
use utero_archive.Examples.Boot.{image, tags, image-TagsFrom}
use utero_archive.Examples.Devices.{earlier, settled, evening}

abbrev place : Location
place = record { file = codes "isr.c"; line = 141; function = codes "isr_handler" }

abbrev build : Build
build = record {
  waits = 9;
  fuel = 9;
  isr = λ k. 0x100000;
  irq = λ k. 0x200000;
  stack = 0x8000;
  kmain_panic = place;
  isr_panic = place;
  date = codes "Nov 26 2018";
  time = codes "12:00:00";
}

-- Lines without a handler after every statement; the timer's interrupt in the check's second round.
abbrev arrivals : Schedule
arrivals = record { after = λ n. 39 ∷ []; checks = (39 ∷ []) ∷ (irq0 ∷ []) ∷ [] }

abbrev unset : Kernel
unset = record {
  screen = record {
    screen_scheme = 0;
    framebuffer = 0;
    screen_col = 0;
    screen_row = 0;
    hardware = record {
      memory = image;
      input = script (earlier ∷ settled ∷ settled ∷ []) (2 ∷ 0x1E ∷ []);
      log = [];
    };
  };
  idt = empty_idt;
  interrupt_handlers = λ n. none;
  tick = 2 ^ 32 - 1;
  mmap = small;
  interrupts_enabled = false;
  halted = false;
}

arrivals-IsSchedule : IsSchedule arrivals
unfolding ticks
arrivals-IsSchedule = record {
  after = λ n. (omega arith, (λ e. absurd (omega arith)), (λ e. absurd (omega arith)), tt);
  quiet = (39 ∷ []) ∷ [];
  first = irq0 ∷ [];
  later = [];
  checks = refl;
  waits = ((omega arith, (λ e. absurd (omega arith)), (λ e. absurd (omega arith)), tt), refl, tt);
  lines = (omega arith, (λ e. absurd (omega arith)), (λ e. absurd (omega arith)), tt);
  arrives = omega arith;
  few = omega arith;
}

image-IsBoot : IsBoot build image 0x9000 0x9088 0x9060 1 tags
unfolding load first_of_type all_sections tag_sections section_list next_tag
image-IsBoot = record {
  information = record {
    tags = image-TagsFrom;
    tags_away = ((inl (omega arith)), ((inl (omega arith)), tt));
    stop_away = inl (omega arith);
    sections_away = ((inl (omega arith)), tt);
  };
  address = omega arith;
  found = refl;
  area = record { entry = omega arith; size = refl; room = omega arith; away = inl (omega arith) };
  tags_fuel = omega arith;
  area_fuel = omega arith;
}

build-IsBuild : IsBuild build
build-IsBuild = record {
  date = refl;
  date_length = omega arith;
  time = refl;
  time_length = omega arith;
}

settled-IsClock : IsClock build earlier (settled ∷ settled ∷ []) (shows_24 true evening) 2
settled-IsClock = record {
  round = record {
    busy = omega arith;
    short = omega arith;
    idle = omega arith;
    bytes = omega arith;
  };
  all = (
    record { busy = tt; short = omega arith; idle = omega arith; bytes = omega arith },
    (record { busy = tt; short = omega arith; idle = omega arith; bytes = omega arith }, tt),
  );
  settles = (λ e. ground (arith, ap (λ r. r.seconds) e), (refl, refl));
  short = omega arith;
  byte = omega arith;
}

machine : IsMachine build arrivals unset
machine = record {
  mbi = 0x9000;
  stop = 0x9088;
  tag = 0x9060;
  count = 1;
  tags = tags;
  first = earlier;
  rounds = settled ∷ settled ∷ [];
  reading = shows_24 true evening;
  reg_b = 2;
  rest = 0x1E ∷ [];
  build = build-IsBuild;
  isr = λ n. omega arith;
  irq = λ n. omega arith;
  unset = λ n. refl;
  tick = omega arith;
  boot = image-IsBoot;
  schedule = arrivals-IsSchedule;
  clock = settled-IsClock;
  input = refl;
}

kmain-Started_example :
    Started build arrivals unset machine (kmain build arrivals multiboot2_magic_value 0x9000 unset)
unfolding machine
kmain-Started_example = kmain-Started build arrivals unset machine refl

started :
    Started build arrivals unset machine (kmain build arrivals multiboot2_magic_value 0x9000 unset)
unfolding machine
started = kmain-Started build arrivals unset machine refl

-- A key has been pressed since.
abbrev waiting : Kernel
waiting = pressed 0x1E started.after

place-IsLocation : IsLocation place
place-IsLocation = record { file = refl; line = omega arith; function = refl }

waiting-Reach : Reach build started.after waiting
waiting-Reach = later start (key 0x1E)

waiting-live : waiting.halted ≡ false
waiting-live = started.halted

kmain-IsSetUp_example :
    IsSetUp build arrivals unset machine waiting
    × (waiting.screen.screen_col < screen_width)
    × (IsAlive waiting ⊎ IsStopped waiting)
unfolding machine
kmain-IsSetUp_example =
    kmain-IsSetUp build arrivals unset machine refl refl place-IsLocation started.after waiting
      started.returns waiting-Reach

kmain-exception_example :
    (after : Kernel) × (exception build 14 0x8000 waiting ≡ some (tt, after))
    × (after.halted ≡ not (14 == exception_bp))
unfolding machine
kmain-exception_example =
    kmain-exception build arrivals unset machine refl refl place-IsLocation started.after waiting
      started.returns waiting-Reach waiting-live 14 0x8000 (omega arith)

kmain-interrupt_example :
    (after : Kernel) × (interrupt build irq0 0x8000 waiting ≡ some (tt, after))
    × (after.halted ≡ false)
unfolding machine
kmain-interrupt_example =
    kmain-interrupt build arrivals unset machine refl refl place-IsLocation started.after waiting
      started.returns waiting-Reach waiting-live irq0 0x8000 (omega arith) (omega arith)
      (λ e. absurd (omega arith))

machine-managed : managed build arrivals unset machine ≡ mmu_init pages areas
unfolding machine load areas_of add_all add_section all_sections tag_sections section_list next_tag
    entry_list
machine-managed = refl

managed-IsMap : IsMap (managed build arrivals unset machine)
managed-IsMap = rw machine-managed areas-IsMap

kmain-Apart_example :
    Apart image 0x9000 0x9088 tags waiting.mmap (mmap_allocate_frame 4 waiting.mmap)
unfolding machine entry_list load chunks entry_chunks chunks_from
kmain-Apart_example =
    kmain-Apart build arrivals unset machine started.after waiting 4 refl refl place-IsLocation
      started.returns waiting-Reach managed-IsMap (omega arith)

abbrev interrupted_code : Cpu
interrupted_code = running_on waiting

kmain-Resumed_example :
    Resumed irq0 interrupted_code (on_line build kept_registers 0 interrupted_code)
unfolding machine
kmain-Resumed_example =
    kmain-Resumed build arrivals unset machine refl refl place-IsLocation started.after
      interrupted_code started.returns waiting-Reach waiting-live (running_on-IsCpu waiting)
      kept_registers 0 (omega arith) (λ e. absurd (omega arith))

kmain-Stopped_example : Stopped build kept_registers 14 2 interrupted_code
unfolding machine
kmain-Stopped_example =
    kmain-Stopped build arrivals unset machine refl refl place-IsLocation started.after
      interrupted_code started.returns waiting-Reach waiting-live (running_on-IsCpu waiting)
      kept_registers 14 2 (omega arith) (λ e. absurd (omega arith)) (omega arith)
