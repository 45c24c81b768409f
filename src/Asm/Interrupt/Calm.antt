-- ===== src/Asm/Interrupt/Calm.antt =====
-- Interrupts of lines that have no handler, or the timer's, seen from the interrupted code.
use utero_archive.Base.{
  ℕ, ◌+◌, ◌-◌, ◌^◌, ◌≤◌, ◌<◌, ◌≡◌, ◌⊎◌, sym, ap, ◌∙◌, arith, false, Option, some, none, List, u32,
}
use utero_archive.Base.Memory.{Memory}
use utero_archive.Core.Ports.{PortEvent}
use utero_archive.Kernel.State.{timer, Build, set_hardware}
use utero_archive.Kernel.Dispatch.{interrupt}
use utero_archive.Kernel.Runs.Served.{is_timer, interrupt-Served}
use utero_archive.Asm.Cpu.{Registers, rdi, set, Cpu, memory_of, with_memory, with_enabled}
use utero_archive.Asm.Interrupt.{frame, frame_base, on_line}
use utero_archive.Asm.Interrupt.Entry.{IsCpu, handed, handed-Saved}
use utero_archive.Asm.Interrupt.Line.{frame-AllWords, on_line-resumed}

-- Of the interrupted code's processor, `rdi` holds the interrupt's number, the memory differs in at
-- most 160 bytes below its stack, and the kernel has counted and told the controllers.
pub record Resumed (id : ℕ) (c : Cpu) (result : Option Cpu) : Type 0 where
  pub mem : Memory
  pub log : List PortEvent
  pub returns :
      result
      ≡ some (record c {
        registers = set rdi id c.registers;
        kernel =
            record (set_hardware
              (record (c.kernel.screen.hardware) { memory = mem; log = log })
              (c.kernel)) {
                tick = u32 (c.kernel.tick + is_timer (c.kernel.interrupt_handlers id));
              };
      })
  pub above : (x : ℕ) → frame_base c ≤ x → mem x ≡ memory_of c.kernel x
  pub under : (x : ℕ) → x < frame_base c - 160 → mem x ≡ memory_of c.kernel x

pub on_line-Resumed :
    (b : Build) (scratch : Registers → Registers) (n : ℕ) (c : Cpu)
    → n < 5
    → IsCpu c
    → c.kernel.halted ≡ false
    → c.kernel.tick < 2 ^ 32
    → (c.kernel.interrupt_handlers (32 + n) ≡ none)
      ⊎ (c.kernel.interrupt_handlers (32 + n) ≡ some timer)
    → Resumed (32 + n) c (on_line b scratch n c)
on_line-Resumed b scratch n c low ok alive small calm =
    let id = 32 + n in
    let h = handed-Saved (frame c) id c (omega arith) (frame-AllWords c ok) (omega arith) ok in
    let entered = with_memory h.mem (with_enabled false c.kernel) in
    let one = interrupt-Served b id (handed (frame c) id c).rsp entered (omega arith) small calm in
    let hw = record (entered.screen.hardware) { log = one.log } in
    let k = record (set_hardware hw entered) {
      tick = u32 (entered.tick + is_timer (entered.interrupt_handlers id));
    } in
    record {
      mem = h.mem;
      log = one.log;
      returns =
          on_line-resumed b scratch n c k low ok alive alive
            (ap (λ s. interrupt b id (handed (frame c) id c).rsp s.kernel) h.shape ∙ one.returns)
            (λ x lo hi. ap (λ s. memory_of s.kernel x) (sym h.shape));
      above = h.above;
      under = λ x hi. h.under x (omega arith);
    }
