-- ===== src/Libk/Itoa.antt =====
-- `itoa` and `ulltoa` (src/libk/itoa.c, src/libk/ulltoa.c): numbers as text. The result is the
-- string that the call leaves in `str`, without its terminator. `none` is undefined behaviour: the
-- negation of the smallest `int`, or a division by zero.
pub mod Digits
pub mod Numbers
pub mod Lengths
use utero_archive.Base.{
  ℕ, zero, suc, ◌+◌, ◌-◌, ◌/◌, ◌%◌, ◌^◌, Bool, true, false, ◌&&◌, Option, none, some, List, [], ◌∷◌,
  ◌++◌, ltb, leb, ◌==◌, if◌then◌else◌, u8, u64,
}
use utero_archive.Base.Int.{ℤ, pos, negsuc}
use utero_archive.Libk.Strrev.{strrev}

-- The integer -n.
abbrev pub minus : ℕ → ℤ
minus zero = pos 0
minus (suc n) = negsuc n

-- The quotient and the remainder of C, which round towards zero.
abbrev pub quot : ℤ → ℕ → ℤ
quot (pos n) b = pos (n / b)
quot (negsuc n) b = minus (suc n / b)

abbrev pub rem : ℤ → ℕ → ℤ
rem (pos n) b = pos (n % b)
rem (negsuc n) b = minus (suc n % b)

abbrev pub is_positive : ℤ → Bool
is_positive (pos n) = ltb 0 n
is_positive (negsuc n) = false

abbrev pub is_negative : ℤ → Bool
is_negative (pos n) = false
is_negative (negsuc n) = true

-- (r < 10) ? r + '0' : r + 'a' - 10, stored as a `char`.
unfoldable pub digit : ℤ → ℕ
digit (pos r) = u8 (if ltb r 10 then r + b'0' else r + b'a' - 10)
digit (negsuc r) = u8 (b'0' + 2 ^ 8 - suc r % 2 ^ 8)

-- The `do` loop of `itoa`, which stores the lowest digit first.
unfoldable pub itoa_loop : ℕ → ℤ → ℕ → List ℕ
itoa_loop zero n base = []
itoa_loop (suc fuel) n base =
    let rest = itoa_loop fuel (quot n base) base in
    digit (rem n base) ∷ (if is_positive (quot n base) then rest else [])

-- -n as an `int`.
pub negate : ℤ → Option ℤ
negate (pos n) = some (minus n)
negate (negsuc n) = if ltb (suc n) (2 ^ 31) then some (pos (suc n)) else none

unfoldable pub itoa : ℤ → ℕ → Option (List ℕ)
itoa (pos zero) base = some (b'0' ∷ [])
itoa n base =
    let turned = is_negative n && base == 10 in
    if base == 0 then none else elim (if turned then negate n else some n) [
      | none ↦ none
      | some n' ↦ strrev (itoa_loop 32 n' base ++ (if turned then b'-' ∷ [] else []))
    ]

-- The `do` loop of `ulltoa`, on an unsigned number.
pub ulltoa_loop : ℕ → ℕ → ℕ → List ℕ
ulltoa_loop zero n base = []
ulltoa_loop (suc fuel) n base =
    let rest = ulltoa_loop fuel (n / base) base in
    digit (pos (n % base)) ∷ (if ltb 0 (n / base) then rest else [])

-- `sign` is an `int`: it holds the low half of `n`, whose bit 31 is its sign.
unfoldable pub ulltoa : ℕ → ℕ → Option (List ℕ)
ulltoa zero base = some (b'0' ∷ [])
ulltoa n base =
    let turned = leb (2 ^ 31) (n % 2 ^ 32) && base == 10 in
    let n' = if turned then u64 (2 ^ 64 - n) else n in
    if base == 0
    then none
    else strrev (ulltoa_loop 64 n' base ++ (if turned then b'-' ∷ [] else []))
