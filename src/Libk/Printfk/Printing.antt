-- ===== src/Libk/Printfk/Printing.antt =====
-- The loop over a format prints the format's text.
use utero_archive.Base.{
  ℕ, zero, suc, ◌≤◌, ◌≡◌, sym, Bool, true, false, Option, List, [], ◌∷◌, ◌==◌, if◌then◌else◌,
  length, arith, Bool-cases, inl, inr,
}
use native.Mathlib.Nat.{le_refl}
use utero_archive.Drivers.Screen.{Screen}
use utero_archive.Libk.Printfk.{
  Arg, isdigitk, head_or_nul, tail, pad_digit, vprintfk_loop, vprintfk,
}
use utero_archive.Libk.Printfk.Render.{
  plain, conversion, parse_format, render_directive, render_all, render,
}
use utero_archive.Libk.Printfk.Equivalence.{
  emit, plain-emit, putsk-nil, put_conversion-emit, rest-emit,
}

length-tail : {n : ℕ} (xs : List ℕ) → length xs ≤ n → length (tail xs) ≤ n
length-tail [] h = h
length-tail (x ∷ xs) h = omega arith

length-pad :
    {n : ℕ} (b : Bool) (xs : List ℕ) → length xs ≤ n → length (tail (if b then tail xs else xs)) ≤ n
length-pad true xs h = length-tail (tail xs) (length-tail xs h)
length-pad false xs h = length-tail xs h

vprintfk_loop-emit :
    (fuel waits device : ℕ) (format : List ℕ) (args : List Arg) (s : Screen)
    → length format ≤ fuel
    → vprintfk_loop fuel waits device format args s
      ≡ emit waits device (render_all (parse_format fuel format) args) s
unfolding vprintfk_loop parse_format render_all
vprintfk_loop-emit zero waits device [] args s h = sym (putsk-nil waits device s)
vprintfk_loop-emit (suc fuel) waits device [] args s h = sym (putsk-nil waits device s)
vprintfk_loop-emit zero waits device (c ∷ rest) args s h = absurd (omega arith)
vprintfk_loop-emit (suc fuel) waits device (c ∷ rest) args s h =
    let padded = isdigitk (pad_digit rest) in
    let rest' = if padded then tail rest else rest in
    let leftpad = if padded then pad_digit rest else 0 in
    let spec = head_or_nul rest' in
    let next : List Arg → Screen → Option Screen = λ args' s'.
      vprintfk_loop fuel waits device (if c == b'%' then tail rest' else rest) args' s' in
    elim (Bool-cases (c == b'%')) [
      | inl t ↦
          rw (t, vprintfk_loop, put_conversion-emit waits device spec leftpad args s)
            (rest-emit waits device (parse_format fuel (tail rest'))
              (render_directive (conversion spec leftpad) args) s next
              (λ args' s'. rw t (
                vprintfk_loop-emit fuel waits device (tail rest') args' s'
                  (length-pad padded rest (omega arith)))))
      | inr f ↦
          rw (f, vprintfk_loop, plain-emit waits device c args s)
            (rest-emit waits device (parse_format fuel rest) (render_directive (plain c) args) s
              next
              (λ args' s'. rw f (vprintfk_loop-emit fuel waits device rest args' s' (omega arith))))
    ]

-- Printing with a format and arguments, to the screen or a serial port, is printing one text: the
-- format's, with each conversion replaced by what it stands for. Where that text is undefined, so
-- is the call. The loop's fuel, the format's length, is enough.
pub vprintfk-render :
    (waits device : ℕ) (format : List ℕ) (args : List Arg) (s : Screen)
    → vprintfk waits device format args s ≡ emit waits device (render format args) s
unfolding vprintfk render
vprintfk-render waits device format args s =
    vprintfk_loop-emit (length format) waits device format args s (le_refl _)
