-- ===== src/Asm/Interrupt.antt =====
-- The entry points of exceptions and interrupts (asm/interrupt.asm), and how the processor enters
-- them through a gate.
pub mod Entry
pub mod Return
pub mod Line
pub mod Calm
pub mod Fault
pub mod Stop
pub mod Reached
use utero_archive.Base.{
  ℕ, zero, suc, ◌+◌, ◌-◌, ◌*◌, ◌/◌, ◌%◌, ◌^◌, ◌≤◌, ◌<◌, ◌≡◌, ◌≢◌, ◌⊎◌, ◌↔◌, inl, inr, refl, sym, ap,
  ap₂, ◌∙◌, subst, arith, Bool, ◌||◌, ◌&&◌, not, true, false, ◌==◌, ltb, leb, if◌then◌else◌, Option,
  some, none, List, [], ◌∷◌, ◌++◌, length, get_or, get_elem?, Bool-cases, u8, u16, u32, u64,
  bit_and, bit_or,
}
use utero_archive.Kernel.State.{Build}
use utero_archive.Asm.Cpu.{
  Registers, Register, rax, rbx, rcx, rdx, rsi, rdi, rbp, r8, r9, r10, r11, r12, r13, r14, r15, Cpu,
  Instruction, cli, sti, iretq, call_isr_handler, call_irq_handler, mov, mov_rsp, push, pop,
  push_words, flags_word, run,
}

unfoldable pub pushes : List Instruction
pushes =
    push rax
    ∷ push rbx
    ∷ push rcx
    ∷ push rdx
    ∷ push rsi
    ∷ push rdi
    ∷ push rbp
    ∷ push r8
    ∷ push r9
    ∷ push r10
    ∷ push r11
    ∷ push r12
    ∷ push r13
    ∷ push r14
    ∷ push r15
    ∷ []

unfoldable pub pops : List Instruction
pops =
    pop r15
    ∷ pop r14
    ∷ pop r13
    ∷ pop r12
    ∷ pop r11
    ∷ pop r10
    ∷ pop r9
    ∷ pop r8
    ∷ pop rbp
    ∷ pop rdi
    ∷ pop rsi
    ∷ pop rdx
    ∷ pop rcx
    ∷ pop rbx
    ∷ pop rax
    ∷ []

unfoldable pub isr_common_stub : List Instruction
isr_common_stub = pushes ++ (mov_rsp rsi ∷ call_isr_handler ∷ (pops ++ (sti ∷ iretq ∷ [])))

unfoldable pub irq_common_stub : List Instruction
irq_common_stub = pushes ++ (mov_rsp rsi ∷ call_irq_handler ∷ (pops ++ (sti ∷ iretq ∷ [])))

-- The macros `def_isr_handler` and `def_irq_handler`; the jump to the common stub is its text.
unfoldable pub isr : ℕ → List Instruction
isr n = cli ∷ mov rdi n ∷ isr_common_stub

unfoldable pub irq : ℕ → List Instruction
irq n = cli ∷ mov rdi (32 + n) ∷ irq_common_stub

-- What the processor pushes: on a stack that is a multiple of 16, the place it was interrupted at,
-- and for some exceptions an error code.
abbrev pub frame : Cpu → List ℕ
frame c = c.ss ∷ c.rsp ∷ flags_word c ∷ c.cs ∷ c.rip ∷ []

abbrev pub frame_base : Cpu → ℕ
frame_base c = c.rsp / 16 * 16

-- The exceptions with an error code, by the processors' manuals: 8, 10 to 14 and 17, and in newer
-- processors 21, 29 and 30.
unfoldable pub pushes_error_code : ℕ → Bool
pushes_error_code id =
    id == 8 || (leb 10 id && leb id 14) || id == 17 || id == 21 || (leb 29 id && leb id 30)

unfoldable pub interrupted : Cpu → Cpu
interrupted c = push_words (frame c) (record c { rsp = frame_base c })

unfoldable pub faulted : ℕ → Cpu → Cpu
faulted code c = push_words (frame c ++ (code ∷ [])) (record c { rsp = frame_base c })

module _ (b : Build) (scratch : Registers → Registers) where
  -- An interrupt of line `n`, and an exception, with its error code if it has one.
  unfoldable pub on_line : ℕ → Cpu → Option Cpu
  on_line n c = run b scratch (irq n) (interrupted c)

  unfoldable pub on_exception : ℕ → ℕ → Cpu → Option Cpu
  on_exception id code c =
      run b scratch (isr id) (if pushes_error_code id then faulted code c else interrupted c)
