-- ===== src/Libk/Printfk.antt =====
-- Formatted output (src/libk/printfk.c, src/libk/ctype.c) to the screen or a serial port. The
-- arguments are the words that `va_arg` takes one by one, cut to the type that the conversion asks
-- for, or strings; `none` is undefined behaviour (an argument that is missing or is no number or
-- string, more text than the buffer holds, and what is undefined in the calls), or a device that
-- is not ready in time. `waits` bounds the waits for the serial port.
pub mod Render
pub mod Equivalence
pub mod Printing
pub mod Conversions
use utero_archive.Base.{
  ℕ, zero, suc, ◌+◌, ◌-◌, ◌^◌, Bool, true, false, ◌&&◌, Option, none, some, List, [], ◌∷◌, ltb, leb,
  ◌==◌, if◌then◌else◌, u8, u16, u32, length,
}
use utero_archive.Base.Int.{ℤ, pos, negsuc}
use utero_archive.Libk.Itoa.{itoa, ulltoa}
use utero_archive.Core.Ports.{Io, Hardware}
use utero_archive.Drivers.Screen.{Screen, screen_write, screen_print}
use utero_archive.Drivers.Serial.{serial_write, serial_print}

abbrev pub device_screen : ℕ
device_screen = 0

pub data Arg : Type 0 where
  word : ℕ → Arg
  text : List ℕ → Arg

-- Its argument is the number that a digit stands for, not the digit.
unfoldable pub isdigitk : ℕ → Bool
isdigitk c = leb 0 c && leb c 9

-- A computation on the ports, with the rest of the state kept.
abbrev pub kept : Screen → Option (Unit {0} × Hardware) → Option Screen
kept s none = none
kept s (some (u, hw)) = some (record s { hardware = hw })

abbrev pub on_ports : Io (Unit {0}) → Screen → Option Screen
on_ports m s = kept s (m s.hardware)

pub putchark : ℕ → ℕ → ℕ → Screen → Option Screen
putchark waits device c s =
    if ltb device_screen device
    then on_ports (serial_write waits (u16 device) c) s
    else screen_write c s

unfoldable pub putsk : ℕ → ℕ → List ℕ → Screen → Option Screen
putsk waits device str s =
    if ltb device_screen device
    then on_ports (serial_print waits (u16 device) str) s
    else screen_print str s

-- A word as an `int32_t`.
abbrev pub signed : ℕ → ℤ
signed n = if ltb n (2 ^ 31) then pos n else negsuc (2 ^ 32 - 1 - n)

-- The buffer `s_val` of 20 bytes holds 19 characters and the terminator.
abbrev pub in_buffer : Option (List ℕ) → Option (List ℕ)
in_buffer none = none
in_buffer (some str) = if ltb (length str) 20 then some str else none

-- while ((leftpad - (uint8_t) strlen(s_val)) > 0) { putchark(device, '0'); leftpad--; }
pub pad_loop : ℕ → ℕ → ℕ → ℕ → Screen → Option Screen
pad_loop waits device zero len s = some s
pad_loop waits device (suc leftpad) len s =
    if ltb len (suc leftpad)
    then elim (putchark waits device b'0' s) [
      | none ↦ none
      | some s' ↦ pad_loop waits device leftpad len s'
    ]
    else some s

-- A number's text, padded.
pub put_number : ℕ → ℕ → ℕ → Option (List ℕ) → Screen → Option Screen
put_number waits device leftpad none s = none
put_number waits device leftpad (some str) s =
    elim (pad_loop waits device leftpad (u8 (length str)) s) [
      | none ↦ none
      | some s' ↦ putsk waits device str s'
    ]

-- `va_arg` and the case of the `switch` for a number or a character.
pub put_word : ℕ → ℕ → ℕ → ℕ → ℕ → Screen → Option Screen
put_word waits device spec leftpad n s =
    if spec == b'c'
    then putchark waits device (u8 n) s
    else if spec == b'd'
    then put_number waits device leftpad (in_buffer (itoa (signed (u32 n)) 10)) s
    else if spec == b'u'
    then put_number waits device 0 (in_buffer (itoa (signed (u32 n)) 10)) s
    else if spec == b'x'
    then put_number waits device 0 (in_buffer (itoa (signed (u32 n)) 16)) s
    else if spec == b'L'
    then put_number waits device 0 (in_buffer (ulltoa n 10)) s
    else put_number waits device 0 (in_buffer (ulltoa n 16)) s

abbrev pub takes_word : ℕ → Bool
takes_word spec =
    if spec == b'c'
    then true
    else if spec == b'd'
    then true
    else if spec == b'u'
    then true
    else if spec == b'x'
    then true
    else if spec == b'L'
    then true
    else spec == b'X'

abbrev pub with_args : List Arg → Option Screen → Option (List Arg × Screen)
with_args args none = none
with_args args (some s) = some (args, s)

pub take_word : ℕ → ℕ → ℕ → ℕ → List Arg → Screen → Option (List Arg × Screen)
take_word waits device spec leftpad [] s = none
take_word waits device spec leftpad (text str ∷ args) s = none
take_word waits device spec leftpad (word n ∷ args) s =
    with_args args (put_word waits device spec leftpad n s)

pub take_text : ℕ → ℕ → List Arg → Screen → Option (List Arg × Screen)
take_text waits device [] s = none
take_text waits device (word n ∷ args) s = none
take_text waits device (text str ∷ args) s = with_args args (putsk waits device str s)

-- The `switch`: an unknown letter prints nothing.
pub put_conversion : ℕ → ℕ → ℕ → ℕ → List Arg → Screen → Option (List Arg × Screen)
put_conversion waits device spec leftpad args s =
    if spec == b'%'
    then with_args args (putchark waits device b'%' s)
    else if takes_word spec
    then take_word waits device spec leftpad args s
    else if spec == b's'
    then take_text waits device args s
    else some (args, s)

-- format[i + 1], with the terminator behind the last character.
abbrev pub head_or_nul : List ℕ → ℕ
head_or_nul [] = 0
head_or_nul (c ∷ cs) = c

abbrev pub tail : List ℕ → List ℕ
tail [] = []
tail (c ∷ cs) = cs

-- format[i + 1] - '0', as a `uint8_t`.
abbrev pub pad_digit : List ℕ → ℕ
pad_digit rest = u8 (head_or_nul rest + 256 - b'0')

-- The loop over the format from position `i` on. The fuel bounds the rounds, and the format's
-- length is enough.
pub vprintfk_loop : ℕ → ℕ → ℕ → List ℕ → List Arg → Screen → Option Screen
vprintfk_loop fuel waits device [] args s = some s
vprintfk_loop zero waits device (c ∷ rest) args s = none
vprintfk_loop (suc fuel) waits device (c ∷ rest) args s =
    let padded = isdigitk (pad_digit rest) in
    let leftpad = if padded then pad_digit rest else 0 in
    let rest' = if padded then tail rest else rest in
    elim (if c == b'%'
      then put_conversion waits device (head_or_nul rest') leftpad args s
      else with_args args (putchark waits device c s)) [
        | none ↦ none
        | some (args', s') ↦
            vprintfk_loop fuel waits device (if c == b'%' then tail rest' else rest) args' s'
      ]

pub vprintfk : ℕ → ℕ → List ℕ → List Arg → Screen → Option Screen
vprintfk waits device format args s = vprintfk_loop (length format) waits device format args s

unfoldable pub printfk : ℕ → List ℕ → List Arg → Screen → Option Screen
printfk waits format args s = vprintfk waits device_screen format args s

-- serial_printf of src/drivers/serial.c.
unfoldable pub serial_printf : ℕ → ℕ → List ℕ → List Arg → Screen → Option Screen
serial_printf waits line format args s = vprintfk waits line format args s
