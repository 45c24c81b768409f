-- ===== src/Kernel/Debug.antt =====
-- The macro DEBUG of src/include/core/debug.h, in the build with ENABLE_KERNEL_DEBUG.
pub mod Tags
pub mod Reading
pub mod Messages
pub mod Said
use mathlib.Core.Option.{some-injective}
use mathlib.Core.List.{reverse}
use utero_archive.Base.{
  ℕ, zero, suc, ◌^◌, ◌≤◌, ◌<◌, ◌≡◌, ◌≢◌, refl, sym, ap, ◌∙◌, arith, Bool, true, false,
  if◌then◌else◌, Option, some, List, [], ◌∷◌, ◌++◌, length,
}
use utero_archive.Base.Text.{codes}
use utero_archive.Base.Memory.{Memory}
use utero_archive.Core.Ports.{PortEvent}
use utero_archive.Drivers.Screen.{Screen}
use utero_archive.Drivers.Serial.{serial_com1}
use utero_archive.Drivers.Serial.Sent.{
  Turn, AllBytes, AllTurns, answers, device, written, serial_print-Printed,
}
use utero_archive.Libk.Itoa.Numbers.{Denotes}
use utero_archive.Libk.Printfk.{Arg, word, text, serial_printf, putsk, isdigitk, pad_digit, tail}
use utero_archive.Kernel.Texts.{plains}
use utero_archive.Libk.Printfk.Render.{
  Directive, conversion, render, parse_format, render_all, render_directive, render_take_word,
  render_take_text, render_word,
}
use utero_archive.Libk.Printfk.Printing.{vprintfk-render}
use utero_archive.Libk.Printfk.Conversions.{render_d-Denotes}
use utero_archive.Kernel.State.{Location}

pub debug : ℕ → Location → List ℕ → List Arg → Screen → Option Screen
debug waits at format args =
    serial_printf waits serial_com1 (codes "DEBUG: %s:%d:%s(): " ++ (format ++ codes "\n"))
      (text at.file ∷ word at.line ∷ text at.function ∷ args)

abbrev pub message : Location → List ℕ → List ℕ → List ℕ
message at line body =
    codes "DEBUG: "
    ++ (at.file ++ (codes ":" ++ (line ++ (codes ":" ++ (at.function ++ (codes "(): " ++ body))))))

tail-short :
    (padded : Bool) (xs : List ℕ) → length (tail (if padded then tail xs else xs)) ≤ length xs
tail-short true [] = omega arith
tail-short true (x ∷ []) = omega arith
tail-short true (x ∷ y ∷ xs) = omega arith
tail-short false [] = omega arith
tail-short false (x ∷ xs) = omega arith

-- Fuel for each character is enough, and more changes nothing.
parse_format_enough :
    (n m : ℕ) (xs : List ℕ) → length xs ≤ n → length xs ≤ m → parse_format n xs ≡ parse_format m xs
unfolding parse_format
parse_format_enough n m [] low high = refl
parse_format_enough zero m (c ∷ rest) low high = absurd (omega arith)
parse_format_enough (suc n) zero (c ∷ rest) low high = absurd (omega arith)
parse_format_enough (suc n) (suc m) (c ∷ rest) low high =
    let rest' = if isdigitk (pad_digit rest) then tail rest else rest in
    let short = tail-short (isdigitk (pad_digit rest)) rest in
    let literal = parse_format_enough n m rest (omega arith) (omega arith) in
    let converted =
      parse_format_enough n m (tail rest') (omega (arith, short)) (omega (arith, short)) in
    rw (literal, converted) refl

prefix_directives :
    (rest : List ℕ)
    → parse_format
        (length (codes "DEBUG: %s:%d:%s(): " ++ rest))
        (codes "DEBUG: %s:%d:%s(): " ++ rest)
      ≡ plains (codes "DEBUG: ") (
          conversion b's' 0
          ∷ plains (codes ":") (
              conversion b'd' 0
              ∷ plains
                  (codes ":")
                  (conversion b's' 0 ∷ plains (codes "(): ") (parse_format (length rest) rest))))
unfolding parse_format isdigitk
prefix_directives rest =
    ap
      (λ ds. plains (codes "DEBUG: ") (
        conversion b's' 0
        ∷ plains (codes ":") (
            conversion b'd' 0 ∷ plains (codes ":") (conversion b's' 0 ∷ plains (codes "(): ") ds))))
      (parse_format_enough (suc (suc (suc (length rest)))) (length rest) rest (omega arith)
        (omega arith))

directives_text :
    (at : Location) (line body : List ℕ) (ds : List Directive) (args : List Arg)
    → render_word b'd' 0 at.line ≡ some line
    → render_all ds args ≡ some body
    → render_all
        (plains (codes "DEBUG: ") (
          conversion b's' 0
          ∷ plains (codes ":") (
              conversion b'd' 0
              ∷ plains (codes ":") (conversion b's' 0 ∷ plains (codes "(): ") ds))))
        (text at.file ∷ word at.line ∷ text at.function ∷ args)
      ≡ some (message at line body)
unfolding render_all render_directive render_take_word render_take_text
directives_text at line body ds args l e = rw (l, e) refl

-- A message went out: the line's number in decimal digits, and the port has been sent the whole text.
pub record Sent (at : Location) (line body : List ℕ) (mem : Memory) (log : List PortEvent)
    (rest : List ℕ) (s : Screen) (result : Option Screen) : Type 0 where
  pub number : Denotes 10 at.line line
  pub log' : List PortEvent
  pub returns : result ≡ some (record s { hardware = device mem log' rest })
  pub sent : written serial_com1 log' ≡ reverse (message at line body) ++ written serial_com1 log
  pub others : (port : ℕ) → port ≢ serial_com1 → written port log' ≡ written port log

-- Where the first serial port takes each character after a wait shorter than the fuel, a debug
-- message from a line below 2^31 returns: the port has been sent the file, the line in decimal digits,
-- the function and the format's text with a line's end, in order, no other port is written, and of
-- the state only the device's answers and the log have changed.
pub debug-Sent :
    (waits : ℕ) (at : Location) (line format body : List ℕ) (args : List Arg) (ts : List Turn)
    (mem : Memory) (log : List PortEvent) (rest : List ℕ) (s : Screen)
    → at.line < 2 ^ 31
    → render_word b'd' 0 at.line ≡ some line
    → render (format ++ codes "\n") args ≡ some body
    → s.hardware ≡ device mem log (answers ts rest)
    → AllBytes (message at line body)
    → AllTurns waits ts
    → length ts ≡ length (message at line body)
    → Sent at line body mem log rest s (debug waits at format args s)
unfolding debug serial_printf putsk render
debug-Sent waits at line format body args ts mem log rest s low l e hw bytes all turns =
    let p =
      serial_print-Printed serial_com1 waits (message at line body) ts mem log rest bytes all
        turns in
    let (digits, writes, denotes, wide, short) = render_d-Denotes at.line 0 low in
    let same : line ≡ digits = some-injective line digits (sym l ∙ writes) in
    let whole = codes "DEBUG: %s:%d:%s(): " ++ (format ++ codes "\n") in
    let texts = text at.file ∷ word at.line ∷ text at.function ∷ args in
    let read : render whole texts ≡ some (message at line body) =
      ap (λ ds. render_all ds texts) (prefix_directives (format ++ codes "\n"))
      ∙ directives_text at line body
          (parse_format (length (format ++ codes "\n")) (format ++ codes "\n")) args l e in
    record {
      number = rw same denotes;
      log' = p.log';
      returns = vprintfk-render waits serial_com1 whole texts s ∙ rw (read, hw, p.returns) refl;
      sent = p.sent;
      others = p.others;
    }
