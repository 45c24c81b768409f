-- ===== src/Drivers/Keyboard.antt =====
-- The keyboard (src/drivers/keyboard.c, src/include/drivers/keyboard.h).
pub mod Callback
use utero_archive.Base.{ℕ, Option, none, some, [], ◌∷◌, ltb, if◌then◌else◌}
use utero_archive.Base.Text.{codes}
use utero_archive.Core.Ports.{port_byte_in}
use utero_archive.Core.Isr.{Interrupts, register_interrupt_handler}
use utero_archive.Drivers.Screen.{Screen}
use utero_archive.Libk.Printfk.{word, printfk}

abbrev pub keyboard_data_port : ℕ
keyboard_data_port = 0x60

abbrev pub scancode_max : ℕ
scancode_max = 57

abbrev pub irq1 : ℕ
irq1 = 33

unfoldable pub keyboard_callback : ℕ → Screen → Option Screen
keyboard_callback waits s = elim (port_byte_in keyboard_data_port s.hardware) [
  | none ↦ none
  | some (scancode, hw) ↦
      if ltb scancode_max scancode
      then some (record s { hardware = hw })
      else printfk waits (codes "Received scancode: %d\n") (word scancode ∷ [])
          (record s { hardware = hw })
]

unfoldable pub keyboard_init {ℓ} : {H : Type ℓ} → H → Interrupts H → Option (Interrupts H)
keyboard_init callback s = register_interrupt_handler irq1 callback s
