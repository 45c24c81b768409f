-- ===== src/Asm/Cpu.antt =====
-- The instructions that asm/interrupt.asm uses, in 64-bit mode, on a processor whose memory and
-- interrupt flag are the kernel's. A C function is called with the first two integer registers; what
-- it keeps on its own stack, its return address included, is not part of the memory, and what it
-- leaves in the registers is the parameter `scratch`.
pub mod Words
use utero_archive.Base.{
  ℕ, zero, suc, ◌+◌, ◌-◌, ◌*◌, ◌/◌, ◌%◌, ◌^◌, ◌≤◌, ◌<◌, ◌≡◌, ◌≢◌, ◌⊎◌, ◌↔◌, inl, inr, refl, sym, ap,
  ◌∙◌, arith, Bool, ◌||◌, ◌&&◌, not, true, false, ◌==◌, ltb, leb, if◌then◌else◌, Option, some, none,
  List, [], ◌∷◌, ◌++◌, length, get_or, get_elem?, Bool-cases, u8, u16, u32, u64, bit_and, bit_or,
}
use utero_archive.Base.Memory.{Memory, load, store}
use utero_archive.Kernel.State.{Build, Kernel}
use utero_archive.Kernel.Dispatch.{exception, interrupt}

pub record Registers : Type 0 where
  pub rax : ℕ
  pub rbx : ℕ
  pub rcx : ℕ
  pub rdx : ℕ
  pub rsi : ℕ
  pub rdi : ℕ
  pub rbp : ℕ
  pub r8 : ℕ
  pub r9 : ℕ
  pub r10 : ℕ
  pub r11 : ℕ
  pub r12 : ℕ
  pub r13 : ℕ
  pub r14 : ℕ
  pub r15 : ℕ

pub data Register : Type 0 where
  rax rbx rcx rdx rsi rdi rbp r8 r9 r10 r11 r12 r13 r14 r15 : Register

abbrev pub get : Register → Registers → ℕ
get rax r = r.rax
get rbx r = r.rbx
get rcx r = r.rcx
get rdx r = r.rdx
get rsi r = r.rsi
get rdi r = r.rdi
get rbp r = r.rbp
get r8 r = r.r8
get r9 r = r.r9
get r10 r = r.r10
get r11 r = r.r11
get r12 r = r.r12
get r13 r = r.r13
get r14 r = r.r14
get r15 r = r.r15

abbrev pub set : Register → ℕ → Registers → Registers
set rax n r = record r { rax = n }
set rbx n r = record r { rbx = n }
set rcx n r = record r { rcx = n }
set rdx n r = record r { rdx = n }
set rsi n r = record r { rsi = n }
set rdi n r = record r { rdi = n }
set rbp n r = record r { rbp = n }
set r8 n r = record r { r8 = n }
set r9 n r = record r { r9 = n }
set r10 n r = record r { r10 = n }
set r11 n r = record r { r11 = n }
set r12 n r = record r { r12 = n }
set r13 n r = record r { r13 = n }
set r14 n r = record r { r14 = n }
set r15 n r = record r { r15 = n }

-- `rflags` is without the interrupt flag, which is the kernel's.
pub record Cpu : Type 0 where
  pub registers : Registers
  pub rip : ℕ
  pub cs : ℕ
  pub rflags : ℕ
  pub rsp : ℕ
  pub ss : ℕ
  pub kernel : Kernel

abbrev pub memory_of : Kernel → Memory
memory_of k = k.screen.hardware.memory

abbrev pub with_memory : Memory → Kernel → Kernel
with_memory mem k = record k {
  screen = record (k.screen) { hardware = record (k.screen.hardware) { memory = mem } };
}

abbrev pub with_enabled : Bool → Kernel → Kernel
with_enabled on k = record k { interrupts_enabled = on }

-- The processor with another top of the stack and another memory.
abbrev pub stacked : ℕ → Memory → Cpu → Cpu
stacked sp mem c = record c { rsp = sp; kernel = with_memory mem c.kernel }

unfoldable pub push_word : ℕ → Cpu → Cpu
push_word v c =
    let sp = u64 (c.rsp + 2 ^ 64 - 8) in stacked sp (store 8 (memory_of c.kernel) sp v) c

-- The words of a list, one after the other.
unfoldable pub push_words : List ℕ → Cpu → Cpu
push_words [] c = c
push_words (v ∷ vs) c = push_words vs (push_word v c)

abbrev pub interrupt_flag : ℕ
interrupt_flag = 512

abbrev pub flags_word : Cpu → ℕ
flags_word c = c.rflags + (if c.kernel.interrupts_enabled then interrupt_flag else 0)

pub data Instruction : Type 0 where
  cli sti iretq call_isr_handler call_irq_handler : Instruction
  mov : Register → ℕ → Instruction
  mov_rsp push pop : Register → Instruction

-- A call of a C function with the vector in rdi and the stack's address in rsi.
abbrev pub called : (Registers → Registers) → Cpu → Option (Unit {0} × Kernel) → Option Cpu
called scratch c none = none
called scratch c (some (u, k)) = some (record c { registers = scratch c.registers; kernel = k })

-- The five words that an interrupt has saved.
unfoldable pub return_from_interrupt : Cpu → Cpu
return_from_interrupt c =
    let word = λ (n : ℕ). load 8 (memory_of c.kernel) (u64 (c.rsp + 8 * n)) in
    let on = word 2 / interrupt_flag % 2 == 1 in
    record c {
      rip = word 0;
      cs = word 1;
      rflags = word 2 - (if on then interrupt_flag else 0);
      rsp = word 3;
      ss = word 4;
      kernel = with_enabled on c.kernel;
    }

module _ (b : Build) (scratch : Registers → Registers) where
  unfoldable pub step : Instruction → Cpu → Option Cpu
  step cli c = some (record c { kernel = with_enabled false c.kernel })
  step sti c = some (record c { kernel = with_enabled true c.kernel })
  step iretq c = some (return_from_interrupt c)
  step call_isr_handler c = called scratch c (exception b c.registers.rdi c.registers.rsi c.kernel)
  step call_irq_handler c = called scratch c (interrupt b c.registers.rdi c.registers.rsi c.kernel)
  step (mov r n) c = some (record c { registers = set r n c.registers })
  step (mov_rsp r) c = some (record c { registers = set r c.rsp c.registers })
  step (push r) c = some (push_word (get r c.registers) c)
  step (pop r) c = some (record c {
    registers = set r (load 8 (memory_of c.kernel) c.rsp) c.registers;
    rsp = u64 (c.rsp + 8);
  })

  -- A kernel that is halted does not go on: a panic's last loop never returns to its caller.
  unfoldable pub run : List Instruction → Cpu → Option Cpu
  run [] c = some c
  run (i ∷ code) c = elim c.kernel.halted [
    | true ↦ some c
    | false ↦ elim (step i c) [ none ↦ none | some c' ↦ run code c' ]
  ]
