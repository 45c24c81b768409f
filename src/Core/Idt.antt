-- ===== src/Core/Idt.antt =====
-- The interrupt descriptor table (src/core/idt.c, src/include/core/idt.h). A gate is its fields, a
-- bit field a number below its width; the table is a function of the vector.
use utero_archive.Base.{
  ℕ, ◌+◌, ◌-◌, true, false, ◌*◌, ◌/◌, ◌^◌, ◌<◌, ◌≡◌, refl, Option, none, some, arith, ltb, ◌==◌,
  if◌then◌else◌, u16, u32,
}

abbrev pub idt_entries : ℕ
idt_entries = 256

pub record Opts : Type 0 where
  pub stack_ok : ℕ
  pub zeros : ℕ
  pub gate_type : ℕ
  pub ones : ℕ
  pub zero_bit : ℕ
  pub dpl : ℕ
  pub present : ℕ

pub record IdtGate : Type 0 where
  pub ptr_low : ℕ
  pub selector : ℕ
  pub opts : Opts
  pub ptr_mid : ℕ
  pub ptr_high : ℕ
  pub reserved_1 : ℕ
  pub type : ℕ
  pub reserved_2 : ℕ

abbrev pub Idt : Type 0
Idt = ℕ → IdtGate

-- The gate that `set_idt_gate` stores for a handler.
pub gate_for : ℕ → IdtGate
gate_for handler = record {
  selector = 0x08;
  ptr_low = u16 handler;
  ptr_mid = u16 (handler / 2 ^ 16);
  ptr_high = u32 (handler / 2 ^ 32);
  opts = record {
    stack_ok = 0;
    present = 1;
    dpl = 3;
    gate_type = 1;
    ones = 7;
    zero_bit = 0;
    zeros = 0;
  };
  reserved_1 = 0;
  reserved_2 = 0;
  type = 0;
}

-- `none` is a write outside of the table.
pub set_idt_gate : ℕ → ℕ → Idt → Option Idt
set_idt_gate n handler idt =
    if ltb n idt_entries then some (λ k. if k == n then gate_for handler else idt k) else none

-- The limit that `set_idt` loads: the table's size in bytes, less one.
pub idt_limit : ℕ
idt_limit = u16 (idt_entries * 16 - 1)

-- The 16 bits of the options, the first bit field lowest.
abbrev pub opts_word : Opts → ℕ
opts_word o =
    o.stack_ok
    + o.zeros * 2 ^ 3
    + o.gate_type * 2 ^ 8
    + o.ones * 2 ^ 9
    + o.zero_bit * 2 ^ 12
    + o.dpl * 2 ^ 13
    + o.present * 2 ^ 15

-- The address that the processor puts together from a gate.
abbrev pub gate_offset : IdtGate → ℕ
gate_offset g = g.ptr_low + g.ptr_mid * 2 ^ 16 + g.ptr_high * 2 ^ 32

-- Storing a handler in a vector of the table: the processor finds the handler's address in that
-- gate, of the code segment 8 and with the options 0xEF00 (present, callable from ring 3, and of
-- the processor's type 15), and every other gate is as it was.
pub set_idt_gate_lem :
    (n handler : ℕ) (idt : Idt)
    → n < idt_entries
    → handler < 2 ^ 64
    → (idt' : Idt) × (set_idt_gate n handler idt ≡ some idt')
      × (gate_offset (idt' n) ≡ handler)
      × ((idt' n).selector ≡ 8)
      × (opts_word (idt' n).opts ≡ 0xEF00)
      × ((k : ℕ) → ¬ (k ≡ n) → idt' k ≡ idt k)
unfolding set_idt_gate gate_for
set_idt_gate_lem n handler idt h a =
    let inside : ltb n idt_entries ≡ true = ground arith in
    let here : (n == n) ≡ true = ground arith in
    (
      λ k. if k == n then gate_for handler else idt k,
      rw inside refl,
      rw here (omega arith),
      rw here refl,
      rw here refl,
      λ k ne. let other : (k == n) ≡ false = ground arith in rw other refl,
    )
