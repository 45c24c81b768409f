-- ===== src/Drivers/Keyboard/Callback.antt =====
-- What a key prints.
use utero_archive.Base.{
  ℕ, ◌≤◌, ◌<◌, ◌≡◌, refl, ◌∙◌, true, false, arith, ltb, some, List, [], ◌∷◌, ◌++◌, u8,
}
use utero_archive.Base.Text.{codes}
use utero_archive.Core.Ports.{read}
use utero_archive.Drivers.Screen.{Screen, screen_print}
use utero_archive.Drivers.Keyboard.{keyboard_callback, scancode_max, keyboard_data_port}
use utero_archive.Libk.Itoa.Numbers.{Denotes}
use utero_archive.Libk.Printfk.{word, printfk, putsk, isdigitk}
use utero_archive.Libk.Printfk.Render.{
  render, parse_format, render_all, render_directive, render_take_word, render_word,
}
use utero_archive.Libk.Printfk.Printing.{vprintfk-render}
use utero_archive.Libk.Printfk.Conversions.{render_d-Denotes}

render_scancode :
    (n : ℕ) (str : List ℕ)
    → render_word b'd' 0 n ≡ some str
    → render (codes "Received scancode: %d\n") (word n ∷ [])
      ≡ some (codes "Received scancode: " ++ (str ++ codes "\n"))
unfolding render parse_format render_all render_directive render_take_word isdigitk
render_scancode n str e = rw e refl

-- The state behind the read of a code.
abbrev pub key_read : ℕ → List ℕ → Screen → Screen
key_read code rest s = record s {
  hardware = record {
    memory = s.hardware.memory;
    input = rest;
    log = read keyboard_data_port code ∷ s.hardware.log;
  };
}

key_printed :
    (waits code : ℕ) (rest str : List ℕ) (s : Screen)
    → s.hardware.input ≡ code ∷ rest
    → code < 256
    → code ≤ scancode_max
    → render_word b'd' 0 code ≡ some str
    → keyboard_callback waits s
      ≡ screen_print (codes "Received scancode: " ++ (str ++ codes "\n")) (key_read code rest s)
unfolding keyboard_callback printfk putsk
key_printed waits code rest str s e small low text =
    let byte : u8 code ≡ code = omega arith in
    let below : ltb scancode_max code ≡ false = ground arith in
    rw (e, byte, below)
      (vprintfk-render waits 0 (codes "Received scancode: %d\n") (word code ∷ [])
          (key_read code rest s)
        ∙ rw (render_scancode code str text) refl)

-- A key's interrupt reads one byte of the device. A code above 57, such as that of a key let go,
-- prints nothing; any other prints one line with its number in decimal digits.
pub keyboard_callback_lem :
    (waits code : ℕ) (rest : List ℕ) (s : Screen)
    → s.hardware.input ≡ code ∷ rest
    → code < 256
    → (scancode_max < code → keyboard_callback waits s ≡ some (key_read code rest s))
      × (code ≤ scancode_max
          → (str : List ℕ) × Denotes 10 code str
            × (keyboard_callback waits s
                ≡ screen_print
                    (codes "Received scancode: " ++ (str ++ codes "\n"))
                    (key_read code rest s)))
unfolding keyboard_callback
keyboard_callback_lem waits code rest s e small =
    let byte : u8 code ≡ code = omega arith in
    (
      λ high. let above : ltb scancode_max code ≡ true = ground arith in rw (e, byte, above) refl,
      λ low.
          let (str, text, denotes, long, short) = render_d-Denotes code 0 (omega arith) in
          (str, denotes, key_printed waits code rest str s e small low text),
    )
