-- ===== src/Asm/Interrupt/Reached.antt =====
-- Interrupts of code that runs behind the kernel's start.
use utero_archive.Base.{
  ℕ, ◌+◌, ◌%◌, ◌^◌, ◌<◌, ◌≡◌, ◌≢◌, inl, inr, ap, ◌∙◌, arith, false, ◌==◌, some, Bool-cases,
}
use utero_archive.Core.Boot.{multiboot2_magic_value}
use utero_archive.Core.Isr.{exception_bp, irq0}
use utero_archive.Kernel.State.{Build, Kernel}
use utero_archive.Kernel.Panic.Halting.{IsLocation}
use utero_archive.Kernel.Start.{Schedule, kmain}
use utero_archive.Kernel.Start.Whole.{IsMachine}
use utero_archive.Kernel.Reach.{Reach}
use utero_archive.Kernel.Reach.Served.{kmain-IsSetUp, now}
use utero_archive.Asm.Cpu.{Registers, Cpu}
use utero_archive.Asm.Interrupt.{on_line}
use utero_archive.Asm.Interrupt.Entry.{IsCpu}
use utero_archive.Asm.Interrupt.Calm.{Resumed, on_line-Resumed}
use utero_archive.Asm.Interrupt.Stop.{Stopped, on_exception-Stopped}

module _ (b : Build) (arrivals : Schedule) (k0 : Kernel) (machine : IsMachine b arrivals k0)
    (aligned : machine.mbi % 8 ≡ 0) (running : k0.halted ≡ false) (loc : IsLocation b.isr_panic)
    (k : Kernel) (c : Cpu)
    (started : kmain b arrivals multiboot2_magic_value machine.mbi k0 ≡ some (tt, k))
    (reach : Reach b k c.kernel) (live : c.kernel.halted ≡ false) (ok : IsCpu c)
    (scratch : Registers → Registers) where
  -- In every state that exceptions, interrupts and keys lead to behind a start of the kernel, with
  -- a place of the panic that has no tab and a line below 2^31, and that is not halted, code with
  -- registers of 64 bits and 168 bytes of room on its stack is resumed after an interrupt of any of
  -- the five lines but the keyboard's: it goes on at the same place with the same flags, stack and
  -- registers, except that rdi holds the interrupt's number; memory has changed in at most 160
  -- bytes below its stack, rounded down to a multiple of 16, a timer's interrupt has been counted,
  -- and the rest of the kernel but the log is as it was.
  pub kmain-Resumed : (n : ℕ) → n < 5 → n ≢ 1 → Resumed (32 + n) c (on_line b scratch n c)
  kmain-Resumed n low no_key =
      let (set, col, mode) =
        kmain-IsSetUp b arrivals k0 machine aligned running loc k c.kernel started reach in
      let serving = now b arrivals k0 machine aligned running loc k c.kernel started reach live in
      on_line-Resumed b scratch n c low ok live serving.tick (elim (Bool-cases (n == 0)) [
        | inl first ↦
            let same : 32 + n ≡ irq0 = ground arith in
            inr (ap c.kernel.interrupt_handlers same ∙ set.on_timer)
        | inr other ↦ inl (
            set.unhandled (32 + n) (omega arith) (ground arith)
              (λ e. absurd (omega (arith, no_key))))
      ])

  -- In every state that exceptions, interrupts and keys lead to behind a start of the kernel, with
  -- a place of the panic that has no tab and a line below 2^31, and that is not halted, with
  -- registers of 64 bits and 168 bytes of room on the stack, an exception other than the
  -- breakpoint, with its error code if it has one, ends in a kernel that is halted with its
  -- interrupts disabled, and the call of the C function is the last instruction of the stub that is
  -- executed: no register is restored, and interrupts are not enabled again.
  pub kmain-Stopped :
      (id code : ℕ) → id < 32 → id ≢ exception_bp → code < 2 ^ 64 → Stopped b scratch id code c
  kmain-Stopped id code low other small =
      let (set, col, mode) =
        kmain-IsSetUp b arrivals k0 machine aligned running loc k c.kernel started reach in
      on_exception-Stopped b scratch id code c low small ok live
        (set.unhandled id other (omega arith) (omega arith)) col loc
