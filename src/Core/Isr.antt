-- ===== src/Core/Isr.antt =====
-- Interrupts (src/core/isr.c, src/include/core/isr.h): the set-up of the controllers and of the
-- vectors, the registered handlers and the dispatch to them. The handlers are values of a type `H`;
-- the addresses of the entry points of asm/interrupt.asm are parameters.
pub mod Setup
pub mod Exceptions
use utero_archive.Base.{
  ℕ, zero, suc, ◌+◌, ◌-◌, ◌*◌, ◌<◌, ◌^◌, Bool, true, false, ◌||◌, Option, none, some, List, [], ◌∷◌,
  ltb, leb, ◌==◌, if◌then◌else◌, u64,
}
use utero_archive.Core.Ports.{Hardware, port_byte_out}
use utero_archive.Core.Idt.{Idt, set_idt_gate}

abbrev pub pic1 : ℕ
pic1 = 0x20

abbrev pub pic2 : ℕ
pic2 = 0xA0

abbrev pub pic1_data : ℕ
pic1_data = 0x21

abbrev pub pic2_data : ℕ
pic2_data = 0xA1

abbrev pub pic_eoi : ℕ
pic_eoi = 0x20

abbrev pub irq_base : ℕ
irq_base = 0x20

abbrev pub exception_bp : ℕ
exception_bp = 3

abbrev pub irq0 : ℕ
irq0 = 32

abbrev pub nb_registers_pushed_before_call : ℕ
nb_registers_pushed_before_call = 15

-- The cases of the switch, for which an error code is taken to lie below the instruction pointer.
unfoldable pub has_error_code : ℕ → Bool
has_error_code id = id == 8 || id == 10 || id == 11 || id == 12 || id == 13 || id == 14 || id == 17

unfoldable pub get_stack : ℕ → ℕ → ℕ
get_stack id stack_addr = u64 (
    (if has_error_code id then u64 (stack_addr + 8) else stack_addr)
    + nb_registers_pushed_before_call * 8)

-- What a dispatch ends in: the call of a handler with the address of its `stack_t`, a panic with
-- the exception's number and that address, or a plain return.
pub data Dispatch {ℓ} (H : Type ℓ) : Type ℓ where
  call : H → ℕ → Dispatch H
  panic : ℕ → ℕ → Dispatch H
  ignore : Dispatch H

-- The arrays `idt` and `interrupt_handlers`, where `none` is a null pointer, and the hardware.
pub record Interrupts {ℓ} (H : Type ℓ) : Type ℓ where
  pub idt : Idt
  pub interrupt_handlers : ℕ → Option H
  pub hardware : Hardware

-- The calls of `set_idt_gate` for the vectors from `n` on.
pub set_gates : ℕ → ℕ → (ℕ → ℕ) → Idt → Option Idt
set_gates zero n handler idt = some idt
set_gates (suc left) n handler idt = elim (set_idt_gate n (handler n) idt) [
  | none ↦ none
  | some idt' ↦ set_gates left (n + 1) handler idt'
]

-- The words that start and mask the two interrupt controllers.
pub pic_init : Hardware → Hardware
pic_init hw =
    let started = port_byte_out pic2 0x11 (port_byte_out pic1 0x11 hw) in
    let based = port_byte_out pic2_data (irq_base + 8) (port_byte_out pic1_data irq_base started) in
    let relayed = port_byte_out pic2_data 0x02 (port_byte_out pic1_data 0x04 based) in
    let finished = port_byte_out pic2_data 0x01 (port_byte_out pic1_data 0x01 relayed) in
    port_byte_out pic2_data 0x00 (port_byte_out pic1_data 0x00 finished)

-- The end of the interrupt is told before the handler runs.
unfoldable pub end_of_interrupt : ℕ → Hardware → Hardware
end_of_interrupt id hw =
    port_byte_out pic1 pic_eoi (if leb 40 id then port_byte_out pic2 pic_eoi hw else hw)

module _ {ℓ} {H : Type ℓ} where
  -- `none` is a write outside of the array.
  pub register_interrupt_handler : ℕ → H → Interrupts H → Option (Interrupts H)
  register_interrupt_handler id handler s =
      if ltb id 256
      then some (record s {
        interrupt_handlers = λ k. if k == id then some handler else s.interrupt_handlers k;
      })
      else none

  -- `isr` and `irq` are the addresses of the entry points, `breakpoint_handler` the one handler
  -- that is registered here.
  pub isr_init : (ℕ → ℕ) → (ℕ → ℕ) → H → Interrupts H → Option (Interrupts H)
  isr_init isr irq breakpoint_handler s = elim (set_gates 32 0 isr s.idt) [
    | none ↦ none
    | some exceptions ↦ elim (set_gates 5 irq0 (λ n. irq (n - irq0)) exceptions) [
      | none ↦ none
      | some all ↦
          register_interrupt_handler exception_bp breakpoint_handler
            (record s { idt = all; hardware = pic_init s.hardware })
    ]
  ]

  -- The messages of a panic are 32; a number beyond them reads outside of the array.
  unfoldable pub isr_handler : ℕ → ℕ → Interrupts H → Option (Dispatch H)
  isr_handler id stack_addr s =
      if ltb id 256
      then elim (s.interrupt_handlers id) [
        | some handler ↦ some (call handler (get_stack id stack_addr))
        | none ↦ if ltb id 32 then some (panic id (get_stack id stack_addr)) else none
      ]
      else none

  unfoldable pub irq_handler : ℕ → ℕ → Interrupts H → Option (Dispatch H × Interrupts H)
  irq_handler id stack_addr s =
      if ltb id 256
      then some (
        elim (s.interrupt_handlers id) [
          | some handler ↦ call handler (get_stack id stack_addr)
          | none ↦ ignore
        ],
        record s { hardware = end_of_interrupt id s.hardware },
      )
      else none
