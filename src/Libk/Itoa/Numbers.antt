-- ===== src/Libk/Itoa/Numbers.antt =====
-- What `ulltoa` and `itoa` write: the number in its base, and where they do not.
use native.Mathlib.Nat.{one-le-pow}
use mathlib.Core.List.{reverse-cons, reverse-append}
use utero_archive.Base.{
  ℕ, zero, suc, ◌-◌, ◌/◌, ◌%◌, ◌^◌, ◌≤◌, ◌<◌, ◌≡◌, ◌≢◌, refl, ◌∙◌, ap, List, [], ◌∷◌, ◌++◌, reverse,
  Bool-cases, inl, inr, ◌⊎◌, true, false, arith, ltb, leb, u64, ◌&&◌, ◌==◌, length, length-reverse,
  length-append, some, none,
}
use utero_archive.Base.Int.{ℤ, pos, negsuc}
use utero_archive.Libk.Strrev.{strrev, strrev-reverse}
use utero_archive.Libk.Itoa.{
  minus, is_positive, negate, digit, itoa_loop, itoa, ulltoa_loop, ulltoa,
}
use utero_archive.Libk.Itoa.Digits.{
  digit_value, value, value-reverse, AllDigits, ulltoa_loop-low_value, ulltoa_loop-AllDigits,
  length-ulltoa_loop, itoa_loop-ulltoa_loop,
}

-- A string of digits of a base that stands for a number.
pub record Denotes (base n : ℕ) (s : List ℕ) : Type 0 where
  pub digits : AllDigits base s
  pub number : value base s ≡ n

AllDigits-append :
    (base : ℕ) (xs ys : List ℕ) → AllDigits base xs → AllDigits base ys → AllDigits base (xs ++ ys)
AllDigits-append base [] ys h k = k
AllDigits-append base (x ∷ xs) ys h k = (h.0, AllDigits-append base xs ys h.1 k)

AllDigits-reverse : (base : ℕ) (xs : List ℕ) → AllDigits base xs → AllDigits base (reverse xs)
AllDigits-reverse base [] h = tt
AllDigits-reverse base (x ∷ xs) h =
    rw (reverse-cons x xs)
      (AllDigits-append base (reverse xs) (x ∷ []) (AllDigits-reverse base xs h.1) (h.0, tt))

length-loop : (fuel n base : ℕ) → length (ulltoa_loop fuel n base) ≤ fuel
unfolding ulltoa_loop
length-loop zero n base = omega arith
length-loop (suc fuel) n base = ground (arith, length-loop fuel (n / base) base)

-- The loop writes at least one digit.
loop_nonempty :
    (fuel n base : ℕ) (end : List ℕ) → (length (ulltoa_loop (suc fuel) n base ++ end) == 0) ≡ false
unfolding ulltoa_loop
loop_nonempty fuel n base end = ground arith

-- The digits and a sign behind them, turned round.
pub strrev_loop-end :
    (fuel n base : ℕ) (end : List ℕ)
    → fuel < 64
    → length end ≤ 1
    → strrev (ulltoa_loop (suc fuel) n base ++ end)
      ≡ some (reverse end ++ reverse (ulltoa_loop (suc fuel) n base))
strrev_loop-end fuel n base end f e =
    let digits = ulltoa_loop (suc fuel) n base in
    let short : length (digits ++ end) < 2 ^ 64 =
      omega (arith, length-append {0} digits end, length-loop (suc fuel) n base) in
    rw
      (
        strrev-reverse (digits ++ end) short,
        loop_nonempty fuel n base end,
        reverse-append digits end,
      )
      refl

pub loop-Denotes :
    (fuel n base : ℕ)
    → 2 ≤ base
    → base ≤ 36
    → n < 2 ^ suc fuel
    → Denotes base n (reverse (ulltoa_loop (suc fuel) n base))
loop-Denotes fuel n base two most h = record {
  digits = AllDigits-reverse base _ (ulltoa_loop-AllDigits base two most (suc fuel) n);
  number = value-reverse base _ ∙ ulltoa_loop-low_value base two most fuel n h;
}

-- `ulltoa` on a number that is not 0, with the sign test's result.
pub ulltoa_plain :
    (n base : ℕ)
    → 2 ≤ base
    → (leb (2 ^ 31) (suc n % 2 ^ 32) && base == 10) ≡ false
    → ulltoa (suc n) base ≡ strrev (ulltoa_loop 64 (suc n) base ++ [])
unfolding ulltoa
ulltoa_plain n base two t = let nonzero : (base == 0) ≡ false = ground arith in rw (t, nonzero) refl

ulltoa_turned :
    (n : ℕ)
    → leb (2 ^ 31) (suc n % 2 ^ 32) ≡ true
    → ulltoa (suc n) 10 ≡ strrev (ulltoa_loop 64 (u64 (2 ^ 64 - suc n)) 10 ++ b'-' ∷ [])
unfolding ulltoa
ulltoa_turned n t = rw t refl

pub zero-Denotes : (base : ℕ) → 2 ≤ base → Denotes base 0 (b'0' ∷ [])
unfolding digit_value value
zero-Denotes base two = record { digits = (ground arith, tt); number = ground arith }

-- `ulltoa` writes every 64-bit number in every base from 2 to 36, except that in base 10 bit 31
-- must be clear: a string of digits of that base which stands for the number.
pub ulltoa-Denotes :
    (n base : ℕ)
    → n < 2 ^ 64
    → 2 ≤ base
    → base ≤ 36
    → (base ≢ 10) ⊎ (n % 2 ^ 32 < 2 ^ 31)
    → (s : List ℕ) × (ulltoa n base ≡ some s) × Denotes base n s
unfolding ulltoa
ulltoa-Denotes zero base h two most ok = (b'0' ∷ [], refl, zero-Denotes base two)
ulltoa-Denotes (suc n) base h two most ok = (
  reverse (ulltoa_loop 64 (suc n) base),
  ulltoa_plain n base two (ground arith)
      ∙ strrev_loop-end 63 (suc n) base [] (omega arith) (omega arith),
  loop-Denotes 63 (suc n) base two most h,
)

-- In base 10 a number with bit 31 set is not written: `ulltoa` takes it for a negative one, and
-- writes a minus and the digits of its distance from 2^64.
pub ulltoa_bit_31 :
    (n : ℕ)
    → n < 2 ^ 64
    → 2 ^ 31 ≤ n % 2 ^ 32
    → (s : List ℕ) × (ulltoa n 10 ≡ some (b'-' ∷ s)) × Denotes 10 (2 ^ 64 - n) s
ulltoa_bit_31 zero h bit = absurd (omega arith)
ulltoa_bit_31 (suc n) h bit =
    let far : u64 (2 ^ 64 - suc n) ≡ 2 ^ 64 - suc n = omega arith in
    (
      reverse (ulltoa_loop 64 (2 ^ 64 - suc n) 10),
      ulltoa_turned n (ground arith)
          ∙ rw far (strrev_loop-end 63 (2 ^ 64 - suc n) 10 (b'-' ∷ []) (omega arith) (omega arith)),
      loop-Denotes 63 (2 ^ 64 - suc n) 10 (omega arith) (omega arith) (omega arith),
    )

-- How many digits: with a number from base^k on and below base^(k + 1) it is k + 1.
pub ulltoa-length :
    (n base k : ℕ)
    → n < 2 ^ 64
    → 2 ≤ base
    → base ≤ 36
    → (base ≢ 10) ⊎ (n % 2 ^ 32 < 2 ^ 31)
    → base ^ k ≤ n
    → n < base ^ suc k
    → (s : List ℕ) × (ulltoa n base ≡ some s) × (length s ≡ suc k)
ulltoa-length zero base k h two most ok lo hi =
    absurd (omega (arith, one-le-pow k base (omega arith)))
ulltoa-length (suc n) base k h two most ok lo hi = (
  reverse (ulltoa_loop 64 (suc n) base),
  ulltoa_plain n base two (ground arith)
      ∙ strrev_loop-end 63 (suc n) base [] (omega arith) (omega arith),
  length-reverse (ulltoa_loop 64 (suc n) base)
      ∙ length-ulltoa_loop base two most 63 k (suc n) h lo hi,
)

-- The number that a decimal string stands for, with its sign.
abbrev pub ReadsAs : ℤ → List ℕ → Type 0
ReadsAs (pos n) s = Denotes 10 n s
ReadsAs (negsuc n) s = (t : List ℕ) × (s ≡ b'-' ∷ t) × Denotes 10 (suc n) t

abbrev pub IsInt : ℤ → Type 0
IsInt (pos n) = n < 2 ^ 31
IsInt (negsuc n) = n < 2 ^ 31

abbrev part : ℤ → ℕ
part (pos n) = 0
part (negsuc n) = n

negsuc-injective : {n m : ℕ} → negsuc n ≡ negsuc m → n ≡ m
negsuc-injective e = ap part e

pub itoa_plain :
    (n base : ℕ) → 2 ≤ base → itoa (pos (suc n)) base ≡ strrev (ulltoa_loop 32 (suc n) base ++ [])
unfolding itoa
itoa_plain n base two =
    let nonzero : (base == 0) ≡ false = ground arith in
    rw nonzero (ap (λ l. strrev (l ++ [])) (itoa_loop-ulltoa_loop 32 (suc n) base))

itoa_turned :
    (n : ℕ) → suc n < 2 ^ 31 → itoa (negsuc n) 10 ≡ strrev (ulltoa_loop 32 (suc n) 10 ++ b'-' ∷ [])
unfolding itoa negate
itoa_turned n h =
    let small : ltb (suc n) (2 ^ 31) ≡ true = ground arith in
    rw small (ap (λ l. strrev (l ++ b'-' ∷ [])) (itoa_loop-ulltoa_loop 32 (suc n) 10))

-- Either an int is not the smallest, and itoa in base 10 writes it, with a minus in front of the
-- digits of a negative one, or it is the smallest, and the call is undefined, since the negation
-- is.
pub itoa-ReadsAs :
    (n : ℤ)
    → IsInt n
    → ((n ≢ negsuc (2 ^ 31 - 1)) × (s : List ℕ) × (itoa n 10 ≡ some s) × ReadsAs n s)
      ⊎ ((n ≡ negsuc (2 ^ 31 - 1)) × (itoa n 10 ≡ none))
unfolding itoa negate
itoa-ReadsAs (pos zero) h = inl ((λ e. cc), b'0' ∷ [], refl, zero-Denotes 10 (omega arith))
itoa-ReadsAs (pos (suc n)) h = inl (
  (λ e. cc),
  reverse (ulltoa_loop 32 (suc n) 10),
  itoa_plain n 10 (omega arith) ∙ strrev_loop-end 31 (suc n) 10 [] (omega arith) (omega arith),
  loop-Denotes 31 (suc n) 10 (omega arith) (omega arith) (omega arith),
)
itoa-ReadsAs (negsuc n) h = elim (Bool-cases (ltb (suc n) (2 ^ 31))) [
  | inl fits ↦
      let small : suc n < 2 ^ 31 = ground arith in
      inl (
        (λ e. absurd (omega (arith, negsuc-injective e))),
        b'-' ∷ reverse (ulltoa_loop 32 (suc n) 10),
        itoa_turned n small ∙ strrev_loop-end 31 (suc n) 10 (b'-' ∷ []) (omega arith) (omega arith),
        (
          reverse (ulltoa_loop 32 (suc n) 10),
          refl,
          loop-Denotes 31 (suc n) 10 (omega arith) (omega arith) (omega arith),
        ),
      )
  | inr most ↦ inr (ap negsuc (ground arith), rw most refl)
]

-- In the other bases a number that is not negative is written as by `ulltoa`.
pub itoa-Denotes :
    (n base : ℕ)
    → n < 2 ^ 31
    → 2 ≤ base
    → base ≤ 36
    → (s : List ℕ) × (itoa (pos n) base ≡ some s) × Denotes base n s
unfolding itoa
itoa-Denotes zero base h two most = (b'0' ∷ [], refl, zero-Denotes base two)
itoa-Denotes (suc n) base h two most = (
  reverse (ulltoa_loop 32 (suc n) base),
  itoa_plain n base two ∙ strrev_loop-end 31 (suc n) base [] (omega arith) (omega arith),
  loop-Denotes 31 (suc n) base two most (omega arith),
)

digit-minus : (r : ℕ) → r < 36 → digit (minus r) ≡ b'0' - r
unfolding digit
digit-minus zero h = refl
digit-minus (suc r) h = omega arith

is_positive-minus : (q : ℕ) → is_positive (minus q) ≡ false
is_positive-minus zero = refl
is_positive-minus (suc q) = refl

loop_negative :
    (fuel n base : ℕ)
    → 2 ≤ base
    → base ≤ 36
    → itoa_loop (suc fuel) (negsuc n) base ≡ (b'0' - suc n % base) ∷ []
unfolding itoa_loop
loop_negative fuel n base two most =
    rw (is_positive-minus (suc n / base), digit-minus (suc n % base) (omega arith)) refl

-- In a base other than 10 a negative `int` comes out as one character, '0' less the remainder of
-- its distance from 0, whatever the rest of the number is.
pub itoa_negative :
    (n base : ℕ)
    → 2 ≤ base
    → base ≤ 36
    → base ≢ 10
    → itoa (negsuc n) base ≡ some ((b'0' - suc n % base) ∷ [])
unfolding itoa
itoa_negative n base two most ten =
    let nonzero : (base == 0) ≡ false = ground arith in
    let other : (base == 10) ≡ false = ground arith in
    rw (nonzero, other, loop_negative 31 n base two most, other)
      (strrev-reverse ((b'0' - suc n % base) ∷ []) (omega arith))
