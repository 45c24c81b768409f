-- ===== src/Libk/Printfk/Conversions.antt =====
-- What the numeric conversions print.
use utero_archive.Base.{
  ℕ, zero, suc, ◌+◌, ◌-◌, ◌^◌, ◌≤◌, ◌<◌, ◌%◌, ◌≡◌, refl, ◌∙◌, ap, ◌⊎◌, inl, inr, List, ◌++◌, arith,
  Bool-cases, length, length-append, length-replicate, replicate, Option, some, none, ltb, true,
  false, u32,
}
use utero_archive.Base.Int.{pos}
use utero_archive.Libk.Itoa.{itoa, ulltoa}
use utero_archive.Libk.Itoa.Digits.{digit_value, value, value_from, AllDigits}
use utero_archive.Libk.Itoa.Numbers.{Denotes, ulltoa-length}
use utero_archive.Libk.Itoa.Lengths.{Writes, itoa-Writes, ulltoa-Writes}
use utero_archive.Drivers.Screen.{Screen}
use utero_archive.Libk.Printfk.{signed, in_buffer, putsk, put_word}
use utero_archive.Libk.Printfk.Render.{render_word}
use utero_archive.Libk.Printfk.Equivalence.{emit, put_word-emit}

-- Leading zeros do not change what a string of digits stands for.
zeros-AllDigits : (k : ℕ) (s : List ℕ) → AllDigits 10 s → AllDigits 10 (replicate k b'0' ++ s)
unfolding digit_value
zeros-AllDigits zero s h = h
zeros-AllDigits (suc k) s h = (ground arith, zeros-AllDigits k s h)

zeros-value : (k : ℕ) (s : List ℕ) → value 10 (replicate k b'0' ++ s) ≡ value 10 s
unfolding value value_from digit_value
zeros-value zero s = refl
zeros-value (suc k) s = zeros-value k s

pub fits :
    (base n k : ℕ) (o : Option (List ℕ)) (w : Writes base n k o) → k < 20 → in_buffer o ≡ some w.str
fits base n k o w h =
    let small : ltb (length w.str) 20 ≡ true = ground (arith, w.short) in
    rw w.returns (rw (small, in_buffer) refl)

-- `%d` of a number that is not negative, with its padding: digits that stand for the number, at
-- least as many as the padding asks for, and never more than the larger of that and ten. The
-- number always fits the buffer.
pub render_d-Denotes :
    (n leftpad : ℕ)
    → n < 2 ^ 31
    → (s : List ℕ) × (render_word b'd' leftpad n ≡ some s)
      × Denotes 10 n s
      × (leftpad ≤ length s)
      × ((length s ≡ leftpad) ⊎ (length s ≤ 10))
unfolding render_word
render_d-Denotes n leftpad h =
    let w = itoa-Writes 10 (omega arith) (omega arith) n 9 h (omega arith) in
    let same : signed (u32 n) ≡ pos n = ground arith in
    let k = leftpad - length w.str in
    let total : length (replicate k b'0' ++ w.str) ≡ k + length w.str =
      length-append (replicate k b'0') w.str
      ∙ ap (λ (t : ℕ). t + length w.str) (length-replicate k b'0') in
    (
      replicate k b'0' ++ w.str,
      rw same (rw (fits 10 n 10 (itoa (pos n) 10) w (omega arith)) refl),
      record {
        digits = zeros-AllDigits k w.str w.denotes.digits;
        number = zeros-value k w.str ∙ w.denotes.number;
      },
      omega (arith, total),
      omega (arith, total, w.short),
    )

-- `%X` prints every 64-bit number in hexadecimal, in at most 16 digits: it always fits the buffer.
pub render_X-Denotes :
    (n leftpad : ℕ)
    → n < 2 ^ 64
    → (s : List ℕ) × (render_word b'X' leftpad n ≡ some s) × Denotes 16 n s × (length s ≤ 16)
unfolding render_word
render_X-Denotes n leftpad h =
    let w = ulltoa-Writes 16 (omega arith) (omega arith) n 15 h (omega arith) (inl (omega arith)) in
    (w.str, fits 16 n 16 (ulltoa n 16) w (omega arith), w.denotes, w.short)

-- `%L` of a 64-bit number whose bit 31 is clear, as a text: up to 19 digits fit the buffer, from
-- 10^19 on they do not.
render_L-iff :
    (n leftpad : ℕ)
    → n < 2 ^ 64
    → n % 2 ^ 32 < 2 ^ 31
    → (n < 10 ^ 19 → (s : List ℕ) × (render_word b'L' leftpad n ≡ some s) × Denotes 10 n s)
      × (10 ^ 19 ≤ n → render_word b'L' leftpad n ≡ none)
unfolding render_word
render_L-iff n leftpad h bit = (
  λ small.
      let w = ulltoa-Writes 10 (omega arith) (omega arith) n 18 h small (inr bit) in
      (w.str, fits 10 n 19 (ulltoa n 10) w (omega arith), w.denotes),
  λ large.
      let (s, e, l) =
        ulltoa-length n 10 19 h (omega arith) (omega arith) (inr bit) large (omega arith) in
      let long : ltb (length s) 20 ≡ false = ground (arith, l) in rw e (rw (long, in_buffer) refl),
)

-- On the screen or a serial port, %L of a 64-bit number whose bit 31 is clear prints digits that
-- stand for the number in base 10 if there are at most 19; from 10^19 on the text and its
-- terminator are longer than the buffer, and the call is undefined.
pub put_word_L :
    (waits device leftpad n : ℕ) (s : Screen)
    → n < 2 ^ 64
    → n % 2 ^ 32 < 2 ^ 31
    → ((n < 10 ^ 19)
        × (str : List ℕ) × Denotes 10 n str
        × (put_word waits device b'L' leftpad n s ≡ putsk waits device str s))
      ⊎ ((10 ^ 19 ≤ n) × (put_word waits device b'L' leftpad n s ≡ none))
put_word_L waits device leftpad n s h bit =
    let (short, long) = render_L-iff n leftpad h bit in
    let same = put_word-emit waits device b'L' leftpad n s in
    elim (Bool-cases (ltb n (10 ^ 19))) [
      | inl below ↦
          let small : n < 10 ^ 19 = ground arith in
          let (str, e, digits) = short small in
          inl (small, str, digits, same ∙ ap (λ o. emit waits device o s) e)
      | inr above ↦
          let large : 10 ^ 19 ≤ n = ground arith in
          inr (large, same ∙ ap (λ o. emit waits device o s) (long large))
    ]
