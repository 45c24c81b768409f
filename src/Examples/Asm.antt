-- ===== src/Examples/Asm.antt =====
-- The theorems on the assembly of asm/ at concrete inputs.
use utero_archive.Base.{◌+◌, ◌-◌, ◌*◌, ◌^◌, ◌≡◌, refl, arith, some}
use utero_archive.Base.Memory.{Memory}
use utero_archive.Core.Boot.{multiboot2_magic_value}
use utero_archive.Core.Isr.{get_stack, isr_handler}
use utero_archive.Core.Isr.Exceptions.{stack_words}
use utero_archive.Core.Timer.{timer_callback}
use utero_archive.Kernel.State.{timer, Kernel}
use utero_archive.Kernel.Dispatch.{exception, run_dispatch, run_handler}
use utero_archive.Mmu.Paging.{Mmu, translate_page, write_entry, map_page_to_frame}
use utero_archive.Examples.Kernel.{build, running}
use utero_archive.Examples.Mmu.{small}
use utero_archive.Asm.Boot.{flip_id, Processor, Boot, start}
use utero_archive.Asm.Boot.Walk.{cpu_walk}
use utero_archive.Asm.Boot.Tables.{IsRoom, set_up_page_tables-SetUp}
use utero_archive.Asm.Boot.Seen.{seen, translate_page-seen}
use utero_archive.Asm.Boot.Outcomes.{
  IsCapable, Entered, start-Entered, no_cpuid, Failed, start-Failed,
}
use utero_archive.Asm.Cpu.{Registers, rdi, set, Cpu, memory_of, push_word, push_words, flags_word}
use utero_archive.Asm.Interrupt.{pushes_error_code, on_exception}
use utero_archive.Asm.Interrupt.Entry.{IsCpu, handed}
use utero_archive.Asm.Interrupt.Return.{resumed}
use utero_archive.Asm.Interrupt.Fault.{pushed, on_exception-resumed}
use utero_archive.Asm.Interrupt.Stop.{five, stack_words-frame}

abbrev pub used : Registers
used = record {
  rax = 1;
  rbx = 2;
  rcx = 3;
  rdx = 4;
  rsi = 5;
  rdi = 6;
  rbp = 7;
  r8 = 8;
  r9 = 9;
  r10 = 10;
  r11 = 11;
  r12 = 12;
  r13 = 13;
  r14 = 14;
  r15 = 2 ^ 64 - 1;
}

-- Code that is interrupted on a stack that is not a multiple of 16, with the carry set.
abbrev pub running_on : Kernel → Cpu
running_on k = record {
  registers = used;
  rip = 0x100008;
  cs = 8;
  rflags = 3;
  rsp = 0x8008;
  ss = 0;
  kernel = k;
}

abbrev pub kept_registers : Registers → Registers
kept_registers r = r

pub running_on-IsCpu : (k : Kernel) → IsCpu (running_on k)
running_on-IsCpu k = record {
  registers = (
    omega arith,
    (
      omega arith,
      (
        omega arith,
        (
          omega arith,
          (
            omega arith,
            (
              omega arith,
              (
                omega arith,
                (
                  omega arith,
                  (
                    omega arith,
                    (
                      omega arith,
                      (omega arith, (omega arith, (omega arith, (omega arith, (omega arith, tt))))),
                    ),
                  ),
                ),
              ),
            ),
          ),
        ),
      ),
    ),
  );
  rip = omega arith;
  cs = omega arith;
  rflags = omega arith;
  flag_apart = refl;
  rsp = omega arith;
  ss = omega arith;
  room = omega arith;
}

-- A kernel in which the timer's callback handles every vector.
abbrev careless : Kernel
careless = record running { interrupt_handlers = λ k. some timer }

abbrev handled : Kernel
handled = record ((handed (pushed 14 2 (running_on careless)) 14 (running_on careless)).kernel) {
  tick = 0;
}

on_exception-resumed_example :
    on_exception build kept_registers 14 2 (running_on careless)
    ≡ some
        (resumed (set rdi 14 used) 2 0x100008 8 (flags_word (running_on careless)) 0x8008 handled)
unfolding handed push_words push_word pushes_error_code exception isr_handler run_dispatch
    run_handler timer_callback
on_exception-resumed_example =
    on_exception-resumed build kept_registers 14 2 (running_on careless) handled (omega arith)
      (omega arith) (running_on-IsCpu careless) refl refl refl (λ x lo hi. refl)

stack_words-frame_example :
    stack_words
      (memory_of (handed (pushed 17 2 (running_on running)) 17 (running_on running)).kernel)
      (get_stack 17 (handed (pushed 17 2 (running_on running)) 17 (running_on running)).rsp)
    ≡ five 0x100008 8 (flags_word (running_on running)) 0x8008 0
stack_words-frame_example =
    stack_words-frame 17 2 (running_on running) (omega arith) (omega arith)
      (running_on-IsCpu running)

abbrev modern : Processor
modern = record { flags = 2; popped = λ x. x; largest_leaf = 0x80000008; features = 2 ^ 29 + 1 }

-- The flag of `cpuid` cannot be flipped.
abbrev old : Processor
old = record { flags = 2; popped = λ x. 2; largest_leaf = 0; features = 0 }

abbrev loaded : Boot
loaded = record { memory = λ a. 0; edi = 0; esi = 0; cr0 = 1; cr3 = 0; cr4 = 0; efer = 0 }

loaded-IsRoom : IsRoom 0x2000 (λ a. 0)
loaded-IsRoom = record { aligned = refl; room = omega arith; zeros = λ x lo hi. refl }

modern-IsCapable : IsCapable modern
unfolding flip_id
modern-IsCapable = record { flips = λ e. absurd (omega arith); leaf = omega arith; feature = refl }

start-Entered_example :
    Entered 0x2000 multiboot2_magic_value 0x9000
      (λ a. 0)
      (start 512 0x2000 modern multiboot2_magic_value 0x9000 loaded)
start-Entered_example =
    start-Entered 512 0x2000 modern 0x9000 loaded (omega arith) loaded-IsRoom modern-IsCapable

start-Failed_example :
    Failed b'1' (λ a. 0) (start 0 0x2000 old multiboot2_magic_value 0x9000 loaded)
start-Failed_example =
    start-Failed 0 0x2000 old multiboot2_magic_value 0x9000 b'1' loaded (no_cpuid refl refl)

-- The memory that the start leaves, and the kernel's variables over it.
abbrev tabled : Memory
tabled = (set_up_page_tables-SetUp 512 0x2000 (λ a. 0) (omega arith) loaded-IsRoom).mem

abbrev windowed : Mmu
windowed = record { mmap = small; memory = seen tabled 0x2000 }

translate_page-seen_example :
    (cpu_walk tabled 0x2000 (3 * 4096 + 5) ≡ some (3 * 4096 + 5))
    × (translate_page windowed.memory 3 ≡ 0)
    × (map_page_to_frame 1 3 7 2 windowed
        ≡ some (record windowed { memory = write_entry 24 7 2 windowed.memory }))
translate_page-seen_example =
    translate_page-seen 512 0x2000 (λ a. 0) tabled 3 7 2 1 5 windowed (omega arith) loaded-IsRoom
      (set_up_page_tables-SetUp 512 0x2000 (λ a. 0) (omega arith) loaded-IsRoom).returns
      (omega arith) (omega arith) refl
