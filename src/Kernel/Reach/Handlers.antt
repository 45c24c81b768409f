-- ===== src/Kernel/Reach/Handlers.antt =====
-- The breakpoint's handler and the keyboard's print a text without tabs.
use utero_archive.Base.{
  ℕ, ◌<◌, ◌≡◌, inl, inr, refl, arith, ltb, List, [], ◌∷◌, length, Bool-cases, u8,
}
use utero_archive.Base.Memory.{Memory}
use utero_archive.Base.Text.{codes}
use utero_archive.Core.Ports.{read}
use utero_archive.Core.Isr.Exceptions.{stack_words, breakpoint_format, breakpoint_handler}
use utero_archive.Drivers.Screen.{Screen, screen_width}
use utero_archive.Drivers.Keyboard.{keyboard_callback, scancode_max, keyboard_data_port}
use utero_archive.Libk.Printfk.{word, printfk, isdigitk}
use utero_archive.Libk.Printfk.Render.{render, parse_format}
use utero_archive.Kernel.Panic.Halting.{Shown, printed-Shown}
use utero_archive.Kernel.Texts.{d-Shows, Renders, nothing, then_plains, then_d}
use utero_archive.Kernel.Texts.Stack.{then_stack}

breakpoint_text :
    (mem : Memory) (stack : ℕ)
    → (n : ℕ) × Renders n
        (parse_format (length breakpoint_format) breakpoint_format)
        (stack_words mem stack)
unfolding parse_format isdigitk breakpoint_format stack_words
breakpoint_text mem stack =
    let (m, regs) = then_stack mem stack (then_plains (codes "\n") refl (nothing [])) in
    (_, then_plains (codes "Exception: BREAKPOINT\n  instruction_pointer = 0x") refl regs)

scancode_text :
    (n : ℕ)
    → n < 256
    → (most : ℕ) × Renders most
        (parse_format (length (codes "Received scancode: %d\n")) (codes "Received scancode: %d\n"))
        (word n ∷ [])
unfolding parse_format isdigitk
scancode_text n low = (
  _,
  then_plains (codes "Received scancode: ") refl (
      then_d (d-Shows n 0 (omega arith) (omega arith))
        (then_plains (codes "\n") refl (nothing []))),
)

module _ (waits : ℕ) (s : Screen) (column : s.screen_col < screen_width) where
  pub breakpoint_handler-Shown : (stack : ℕ) → Shown (breakpoint_handler waits stack s)
  unfolding breakpoint_handler printfk render
  breakpoint_handler-Shown stack =
      let (n, t) = breakpoint_text s.hardware.memory stack in
      printed-Shown waits breakpoint_format (stack_words s.hardware.memory stack) t.str s t.renders
        t.plain column

  pub keyboard_callback-Shown :
      (code : ℕ) (rest : List ℕ)
      → s.hardware.input ≡ code ∷ rest
      → Shown (keyboard_callback waits s)
  unfolding keyboard_callback printfk render
  keyboard_callback-Shown code rest e =
      let s' = record s {
        hardware = record {
          memory = s.hardware.memory;
          input = rest;
          log = read keyboard_data_port (u8 code) ∷ s.hardware.log;
        };
      } in
      elim (Bool-cases (ltb scancode_max (u8 code))) [
        | inl above ↦ rw (e, above) (record { after = s'; returns = refl; on_screen = column })
        | inr low ↦
            let (n, t) = scancode_text (u8 code) (omega arith) in
            rw (e, low)
              (printed-Shown waits (codes "Received scancode: %d\n") (word (u8 code) ∷ []) t.str s'
                t.renders t.plain column)
      ]
