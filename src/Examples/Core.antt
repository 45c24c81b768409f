-- ===== src/Examples/Core.antt =====
-- The theorems on src/core at concrete inputs.
use utero_archive.Base.{ℕ, none, []}
use utero_archive.Core.Ports.{Hardware}
use utero_archive.Core.Idt.{Idt, IdtGate}
use utero_archive.Core.Isr.{Interrupts}

abbrev pub empty_gate : IdtGate
empty_gate = record {
  ptr_low = 0;
  selector = 0;
  opts = record {
    stack_ok = 0;
    zeros = 0;
    gate_type = 0;
    ones = 0;
    zero_bit = 0;
    dpl = 0;
    present = 0;
  };
  ptr_mid = 0;
  ptr_high = 0;
  reserved_1 = 0;
  type = 0;
  reserved_2 = 0;
}

abbrev pub empty_idt : Idt
empty_idt k = empty_gate

abbrev pub powered_on : Hardware
powered_on = record { memory = λ x. 0; input = []; log = [] }

-- Handlers are their names.
abbrev pub reset : Interrupts ℕ
reset = record { idt = empty_idt; interrupt_handlers = λ k. none; hardware = powered_on }
