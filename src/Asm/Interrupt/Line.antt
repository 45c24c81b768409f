-- ===== src/Asm/Interrupt/Line.antt =====
-- The stub of an interrupt of a line, and of an exception without an error code, from the
-- interrupted code and back to it.
use utero_archive.Base.{
  ℕ, ◌+◌, ◌-◌, ◌/◌, ◌%◌, ◌^◌, ◌<◌, ◌≡◌, inl, inr, refl, ap, ◌∙◌, arith, Bool, false, ◌==◌,
  if◌then◌else◌, some, [], Bool-cases,
}
use utero_archive.Kernel.State.{Build, Kernel}
use utero_archive.Kernel.Dispatch.{exception, interrupt}
use utero_archive.Asm.Cpu.{
  Registers, rdi, set, Cpu, with_enabled, interrupt_flag, flags_word, called, call_isr_handler,
  call_irq_handler, step,
}
use utero_archive.Asm.Cpu.Words.{AllWords}
use utero_archive.Asm.Interrupt.{pushes, pops, irq_common_stub, irq, frame, interrupted, on_line}
use utero_archive.Asm.Interrupt.Entry.{IsCpu, handed}
use utero_archive.Asm.Interrupt.Return.{resumed, Kept, stub-returned}

module _ (c : Cpu) (ok : IsCpu c) where
  flags_word-enabled : (flags_word c / interrupt_flag % 2 == 1) ≡ c.kernel.interrupts_enabled
  flags_word-enabled = elim (Bool-cases c.kernel.interrupts_enabled) [
    | inl on ↦ rw on (ground (arith, ok.flag_apart))
    | inr off ↦ rw off (ground (arith, ok.flag_apart))
  ]

  flags_word-small : flags_word c < 2 ^ 64
  flags_word-small = elim (Bool-cases c.kernel.interrupts_enabled) [
    | inl on ↦ rw on (omega (arith, ok.rflags))
    | inr off ↦ rw off (omega (arith, ok.rflags))
  ]

  pub frame-AllWords : AllWords (frame c)
  frame-AllWords = (ok.ss, (ok.rsp, (flags_word-small, (ok.cs, (ok.rip, tt)))))

  -- The frame of an interrupt leads back to the interrupted place.
  pub resumed-frame :
      (r : Registers) (k : Kernel)
      → resumed r c.rip c.cs (flags_word c) c.rsp c.ss k
        ≡ record c { registers = r; kernel = with_enabled c.kernel.interrupts_enabled k }
  resumed-frame r k =
      let without : flags_word c - (if c.kernel.interrupts_enabled then interrupt_flag else 0)
          ≡ c.rflags =
        omega arith in
      ap
        (λ (on : Bool). record c {
          registers = r;
          rflags = flags_word c - (if on then interrupt_flag else 0);
          kernel = with_enabled on k;
        })
        flags_word-enabled
      ∙ ap
          (λ f. record c {
            registers = r;
            rflags = f;
            kernel = with_enabled c.kernel.interrupts_enabled k;
          })
          without

module _ (b : Build) (scratch : Registers → Registers) where
  calls_irq :
      (c : Cpu)
      → step b scratch call_irq_handler c
        ≡ called scratch c (interrupt b c.registers.rdi c.registers.rsi c.kernel)
  unfolding step
  calls_irq c = refl

  pub calls_isr :
      (c : Cpu)
      → step b scratch call_isr_handler c
        ≡ called scratch c (exception b c.registers.rdi c.registers.rsi c.kernel)
  unfolding step
  calls_isr c = refl

  pub on_line-resumed :
      (n : ℕ) (c : Cpu) (k : Kernel)
      → n < 5
      → IsCpu c
      → c.kernel.halted ≡ false
      → k.halted ≡ false
      → interrupt b (32 + n) (handed (frame c) (32 + n) c).rsp (handed (frame c) (32 + n) c).kernel
        ≡ some (tt, k)
      → Kept (frame c) (32 + n) c k
      → on_line b scratch n c
        ≡ some (record c {
          registers = set rdi (32 + n) c.registers;
          kernel = with_enabled c.kernel.interrupts_enabled k;
        })
  unfolding on_line irq irq_common_stub pushes pops interrupted
  on_line-resumed n c k low ok alive going e kept =
      stub-returned b scratch call_irq_handler (interrupt b) calls_irq (frame c) [] c.rip c.cs
        (flags_word c) c.rsp c.ss (32 + n) c k (omega arith) refl (frame-AllWords c ok)
        (omega arith) ok alive going e kept
      ∙ ap some (resumed-frame c ok (set rdi (32 + n) c.registers) k)
