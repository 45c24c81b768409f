-- ===== src/Libk/Itoa/Digits.antt =====
-- What a string of digits stands for, and that the digit loops write the number they are given.
use mathlib.Core.List.{reverse-cons}
use native.Mathlib.Nat.{
  div-add-mod', le-div_iff_mul-le, div-lt_iff_lt-mul, pow-suc, one-le-pow, pow-zero, one-mul,
  div-eq_of_lt,
}
use utero_archive.Base.{
  ℕ, zero, suc, ◌+◌, ◌-◌, ◌*◌, ◌/◌, ◌%◌, ◌^◌, ◌≤◌, ◌<◌, ◌≡◌, refl, ◌∙◌, ap, List, [], ◌∷◌, ◌++◌,
  reverse, ◌⊎◌, Bool-cases, inl, inr, true, false, arith, ltb, if◌then◌else◌, length,
}
use utero_archive.Base.Int.{pos}
use utero_archive.Libk.Itoa.{digit, itoa_loop, ulltoa_loop}

unfoldable pub digit_value : ℕ → ℕ
digit_value c = if ltb c b'a' then c - b'0' else c - b'a' + 10

unfoldable pub value_from : ℕ → ℕ → List ℕ → ℕ
value_from base acc [] = acc
value_from base acc (c ∷ cs) = value_from base (acc * base + digit_value c) cs

-- The number that a string of digits stands for.
unfoldable pub value : ℕ → List ℕ → ℕ
unfolding value_from
value base s = value_from base 0 s

-- The same with the lowest digit first.
unfoldable pub low_value : ℕ → List ℕ → ℕ
low_value base [] = 0
low_value base (c ∷ cs) = low_value base cs * base + digit_value c

value_from-append :
    (base acc : ℕ) (xs ys : List ℕ)
    → value_from base acc (xs ++ ys) ≡ value_from base (value_from base acc xs) ys
unfolding value_from
value_from-append base acc [] ys = refl
value_from-append base acc (x ∷ xs) ys = value_from-append base (acc * base + digit_value x) xs ys

pub value-reverse : (base : ℕ) (xs : List ℕ) → value base (reverse xs) ≡ low_value base xs
unfolding value low_value
value-reverse base [] = refl
value-reverse base (x ∷ xs) =
    rw (reverse-cons x xs, value_from-append base 0 (reverse xs) (x ∷ []), value-reverse base xs)
      refl

-- '0' to '9' and 'a' to 'z', below the base.
abbrev pub IsDigit : ℕ → ℕ → Type 0
IsDigit base c = (((b'0' ≤ c) × (c ≤ b'9')) ⊎ ((b'a' ≤ c) × (c ≤ b'z'))) × (digit_value c < base)

abbrev pub AllDigits : ℕ → List ℕ → Type 0
AllDigits base [] = Unit {0}
AllDigits base (c ∷ cs) = IsDigit base c × AllDigits base cs

module _ (base : ℕ) (two : 2 ≤ base) (most : base ≤ 36) where
  digit_value-digit : (r : ℕ) → r < base → digit_value (digit (pos r)) ≡ r
  unfolding digit_value digit
  digit_value-digit r h = ground arith

  digit-IsDigit : (r : ℕ) → r < base → IsDigit base (digit (pos r))
  unfolding digit_value digit
  digit-IsDigit r h = ground arith

  base_pos : 0 < base
  base_pos = omega arith

  quotient_fuel : (fuel n : ℕ) → n < 2 ^ suc fuel → n / base < 2 ^ fuel
  quotient_fuel fuel n h =
      let room : n < 2 ^ fuel * base = grind (arith, pow-suc 2 fuel) in
      (div-lt_iff_lt-mul base_pos).1 room

  loop_value :
      (fuel n : ℕ) → ltb 0 (n / base) ≡ false → low_value base (ulltoa_loop (suc fuel) n base) ≡ n
  unfolding ulltoa_loop low_value
  loop_value fuel n last =
      let whole : 0 * base + n % base ≡ n = ground (arith, div-add-mod' n base) in
      rw (last, digit_value-digit (n % base) (omega arith)) whole

  pub ulltoa_loop-low_value :
      (fuel n : ℕ) → n < 2 ^ suc fuel → low_value base (ulltoa_loop (suc fuel) n base) ≡ n
  unfolding ulltoa_loop low_value
  ulltoa_loop-low_value zero n h = loop_value 0 n (ground (arith, quotient_fuel 0 n))
  ulltoa_loop-low_value (suc fuel) n h = elim (Bool-cases (ltb 0 (n / base))) [
    | inl more ↦
        rw (more, digit_value-digit (n % base) (omega arith))
          (omega (
            arith,
            ulltoa_loop-low_value fuel (n / base) (quotient_fuel (suc fuel) n h),
            ap (λ (t : ℕ). t * base)
                (ulltoa_loop-low_value fuel (n / base) (quotient_fuel (suc fuel) n h)),
            div-add-mod' n base,
          ))
    | inr last ↦ loop_value (suc fuel) n last
  ]

  pub ulltoa_loop-AllDigits : (fuel n : ℕ) → AllDigits base (ulltoa_loop fuel n base)
  unfolding ulltoa_loop
  ulltoa_loop-AllDigits zero n = tt
  ulltoa_loop-AllDigits (suc fuel) n = elim (Bool-cases (ltb 0 (n / base))) [
    | inl more ↦
        rw more (digit-IsDigit (n % base) (omega arith), ulltoa_loop-AllDigits fuel (n / base))
    | inr last ↦ rw last (digit-IsDigit (n % base) (omega arith), tt)
  ]

  one_digit : base ^ suc 0 ≡ base
  one_digit = pow-suc base 0 ∙ rw (pow-zero base) (one-mul base)

  grow : (k : ℕ) → 2 ≤ base ^ k * base
  grow k = grind (arith, one-le-pow k base)

  -- A number of `k + 1` digits.
  pub length-ulltoa_loop :
      (fuel k n : ℕ)
      → n < 2 ^ suc fuel
      → base ^ k ≤ n
      → n < base ^ suc k
      → length (ulltoa_loop (suc fuel) n base) ≡ suc k
  unfolding ulltoa_loop
  length-ulltoa_loop fuel zero n f lo hi =
      let small : n < base = rw one_digit at hi in
      let last : ltb 0 (n / base) ≡ false = ground (arith, div-eq_of_lt small) in rw last refl
  length-ulltoa_loop zero (suc k) n f lo hi = absurd (omega (arith, pow-suc base k, grow k))
  length-ulltoa_loop (suc fuel) (suc k) n f lo hi =
      let low : base ^ k ≤ n / base =
        (le-div_iff_mul-le base_pos).1 (omega (arith, pow-suc base k)) in
      let high : n / base < base ^ suc k =
        (div-lt_iff_lt-mul base_pos).1 (omega (arith, pow-suc base (suc k))) in
      let more : ltb 0 (n / base) ≡ true = ground (arith, one-le-pow k base base_pos) in
      rw more
        (ap suc (length-ulltoa_loop fuel k (n / base) (quotient_fuel (suc fuel) n f) low high))

  -- A number below base^k has at most `k` digits.
  pub length-ulltoa_loop_below :
      (fuel k n : ℕ) → n < base ^ suc k → length (ulltoa_loop fuel n base) ≤ suc k
  unfolding ulltoa_loop
  length-ulltoa_loop_below zero k n hi = omega arith
  length-ulltoa_loop_below (suc fuel) zero n hi =
      let small : n < base = rw one_digit at hi in
      let last : ltb 0 (n / base) ≡ false = ground (arith, div-eq_of_lt small) in
      rw last (omega arith)
  length-ulltoa_loop_below (suc fuel) (suc k) n hi =
      let high : n / base < base ^ suc k =
        (div-lt_iff_lt-mul base_pos).1 (omega (arith, pow-suc base (suc k))) in
      ground (arith, length-ulltoa_loop_below fuel k (n / base) high)

-- On a number that is not negative the two loops are the same.
pub itoa_loop-ulltoa_loop :
    (fuel n base : ℕ) → itoa_loop fuel (pos n) base ≡ ulltoa_loop fuel n base
unfolding itoa_loop ulltoa_loop
itoa_loop-ulltoa_loop zero n base = refl
itoa_loop-ulltoa_loop (suc fuel) n base = rw (itoa_loop-ulltoa_loop fuel (n / base) base) refl
