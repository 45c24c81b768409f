-- ===== src/Libk/Printfk/Render.antt =====
-- What a format and its arguments stand for: one text, with no device.
use utero_archive.Base.{
  ℕ, zero, suc, ◌-◌, Option, none, some, List, [], ◌∷◌, ◌++◌, ◌==◌, if◌then◌else◌, u8, u32, length,
  replicate,
}
use utero_archive.Libk.Itoa.{itoa, ulltoa}
use utero_archive.Libk.Printfk.{
  Arg, word, text, isdigitk, signed, in_buffer, takes_word, head_or_nul, tail, pad_digit,
}

-- A format is text and conversions, each a letter with its padding.
pub data Directive : Type 0 where
  plain : ℕ → Directive
  conversion : ℕ → ℕ → Directive

unfoldable pub parse_format : ℕ → List ℕ → List Directive
parse_format fuel [] = []
parse_format zero (c ∷ rest) = []
parse_format (suc fuel) (c ∷ rest) =
    let padded = isdigitk (pad_digit rest) in
    let rest' = if padded then tail rest else rest in
    let converted =
      conversion (head_or_nul rest') (if padded then pad_digit rest else 0)
      ∷ parse_format fuel (tail rest') in
    let literal = plain c ∷ parse_format fuel rest in if c == b'%' then converted else literal

abbrev pub pad : ℕ → Option (List ℕ) → Option (List ℕ)
pad leftpad none = none
pad leftpad (some str) = some (replicate (leftpad - length str) b'0' ++ str)

unfoldable pub render_word : ℕ → ℕ → ℕ → Option (List ℕ)
render_word spec leftpad n =
    if spec == b'c'
    then some (u8 n ∷ [])
    else if spec == b'd'
    then pad leftpad (in_buffer (itoa (signed (u32 n)) 10))
    else if spec == b'u'
    then in_buffer (itoa (signed (u32 n)) 10)
    else if spec == b'x'
    then in_buffer (itoa (signed (u32 n)) 16)
    else if spec == b'L'
    then in_buffer (ulltoa n 10)
    else in_buffer (ulltoa n 16)

abbrev pub and_args : List Arg → Option (List ℕ) → Option (List ℕ × List Arg)
and_args args none = none
and_args args (some str) = some (str, args)

unfoldable pub render_take_word : ℕ → ℕ → List Arg → Option (List ℕ × List Arg)
render_take_word spec leftpad [] = none
render_take_word spec leftpad (text str ∷ args) = none
render_take_word spec leftpad (word n ∷ args) = and_args args (render_word spec leftpad n)

unfoldable pub render_take_text : List Arg → Option (List ℕ × List Arg)
render_take_text [] = none
render_take_text (word n ∷ args) = none
render_take_text (text str ∷ args) = some (str, args)

unfoldable pub render_directive : Directive → List Arg → Option (List ℕ × List Arg)
render_directive (plain c) args = some (c ∷ [], args)
render_directive (conversion spec leftpad) args =
    if spec == b'%'
    then some (b'%' ∷ [], args)
    else if takes_word spec
    then render_take_word spec leftpad args
    else if spec == b's'
    then render_take_text args
    else some ([], args)

abbrev pub before : List ℕ → Option (List ℕ) → Option (List ℕ)
before str none = none
before str (some rest) = some (str ++ rest)

unfoldable pub render_all : List Directive → List Arg → Option (List ℕ)
render_all [] args = some []
render_all (d ∷ ds) args = elim (render_directive d args) [
  | none ↦ none
  | some (str, args') ↦ before str (render_all ds args')
]

-- The text of a format with its arguments.
unfoldable pub render : List ℕ → List Arg → Option (List ℕ)
render format args = render_all (parse_format (length format) format) args
