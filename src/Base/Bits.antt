-- ===== src/Base/Bits.antt =====
-- `&` and `|` as arithmetic: a mask of adjacent bits is a field of the number, and the or of
-- numbers that share no bit is their sum.
use Prim.Native.Nat.{
  ℕ, zero, suc, ◌+◌, ◌-◌, ◌*◌, ◌/◌, ◌%◌, ◌^◌, ◌<◌, min, max, bit_and, bit_or, bit_or-bitwise,
}
use mathlib.Core.Path.{◌≡◌, refl, ◌∙◌}
use native.Mathlib.Nat.{
  pow-suc, div-one, mod-one, one-le-pow, mul-div_left, div-eq_of_lt, mod-eq_of_lt, mul-mod_left,
}
use native.Mathlib.Omega.{arith}
use utero_archive.Base.Digits.{and_digit, or_digit}

and_zero_below : (n a : ℕ) → a < n → bit_and a 0 ≡ 0
and_zero_below zero a h = absurd (omega arith)
and_zero_below (suc n) zero h = refl
and_zero_below (suc n) (suc a) h =
    omega (arith, and_digit (suc a) 0, and_zero_below n (suc a / 2) (omega arith))

pub and-zero : (a : ℕ) → bit_and a 0 ≡ 0
and-zero a = and_zero_below (suc a) a (omega arith)

or_zero_below : (n a : ℕ) → a < n → bit_or a 0 ≡ a
or_zero_below zero a h = absurd (omega arith)
or_zero_below (suc n) zero h = refl
or_zero_below (suc n) (suc a) h =
    omega (arith, or_digit (suc a) 0, or_zero_below n (suc a / 2) (omega arith))

pub or-zero : (a : ℕ) → bit_or a 0 ≡ a
or-zero a = or_zero_below (suc a) a (omega arith)

pub zero-or : (a : ℕ) → bit_or 0 a ≡ a
zero-or a = bit_or-bitwise 0 a

pow_pos : (k : ℕ) → 0 < 2 ^ k
pow_pos k = one-le-pow k 2 (omega arith)

double_pow : (k : ℕ) → 2 ^ suc k ≡ 2 * 2 ^ k
double_pow k = omega (arith, pow-suc 2 k)

double_mod : (p a : ℕ) → 0 < p → a % (2 * p) ≡ a / 2 % p * 2 + a % 2
double_mod p a h = grind arith

double_div : (p a : ℕ) → 0 < p → a / (2 * p) ≡ a / 2 / p
double_div p a h = grind arith

-- The low `k + 1` bits of a number, and what stands above them.
low_suc : (k a : ℕ) → a % 2 ^ suc k ≡ a / 2 % 2 ^ k * 2 + a % 2
low_suc k a = rw (double_pow k) (double_mod (2 ^ k) a (pow_pos k))

high_suc : (k a : ℕ) → a / 2 ^ suc k ≡ a / 2 / 2 ^ k
high_suc k a = rw (double_pow k) (double_div (2 ^ k) a (pow_pos k))

low_suc_half : (k a : ℕ) → a % 2 ^ suc k / 2 ≡ a / 2 % 2 ^ k
low_suc_half k a = omega (arith, low_suc k a)

low_suc_bit : (k a : ℕ) → a % 2 ^ suc k % 2 ≡ a % 2
low_suc_bit k a = omega (arith, low_suc k a)

-- An operation on digits works on the low `k` bits and on the others apart.
module _ (op bit : ℕ → ℕ → ℕ)
    (digit : (a b : ℕ) → op a b ≡ op (a / 2) (b / 2) * 2 + bit (a % 2) (b % 2))
    (idle : op 0 0 ≡ 0) where
  split : (k a b : ℕ) → op a b ≡ op (a / 2 ^ k) (b / 2 ^ k) * 2 ^ k + op (a % 2 ^ k) (b % 2 ^ k)
  split zero a b = rw (div-one a, div-one b, mod-one a, mod-one b, idle) (omega arith)
  split (suc k) a b =
      let low = digit (a % 2 ^ suc k) (b % 2 ^ suc k) in
      let low' : op (a % 2 ^ suc k) (b % 2 ^ suc k)
          ≡ op (a / 2 % 2 ^ k) (b / 2 % 2 ^ k) * 2 + bit (a % 2) (b % 2) =
        low ∙ rw (low_suc_half k a, low_suc_half k b, low_suc_bit k a, low_suc_bit k b) refl in
      rw (high_suc k a, high_suc k b, low', double_pow k)
        (omega (arith, digit a b, split k (a / 2) (b / 2)))

pub and_split :
    (k a b : ℕ)
    → bit_and a b ≡ bit_and (a / 2 ^ k) (b / 2 ^ k) * 2 ^ k + bit_and (a % 2 ^ k) (b % 2 ^ k)
and_split = split bit_and min and_digit refl

pub or_split :
    (k a b : ℕ)
    → bit_or a b ≡ bit_or (a / 2 ^ k) (b / 2 ^ k) * 2 ^ k + bit_or (a % 2 ^ k) (b % 2 ^ k)
or_split = split bit_or max or_digit refl

-- x & (2^k - 1)
pub and_low : (k a : ℕ) → bit_and a (2 ^ k - 1) ≡ a % 2 ^ k
and_low zero a = omega (arith, and-zero a)
and_low (suc k) a =
    let half : (2 ^ suc k - 1) / 2 ≡ 2 ^ k - 1 = omega (arith, double_pow k) in
    let odd : (2 ^ suc k - 1) % 2 ≡ 1 = omega (arith, double_pow k, pow_pos k) in
    let above : bit_and (a / 2) ((2 ^ suc k - 1) / 2) ≡ a / 2 % 2 ^ k =
      rw half (and_low k (a / 2)) in
    omega (arith, and_digit a (2 ^ suc k - 1), odd, above, low_suc k a)

-- (q << k) | r
pub or_low : (k q r : ℕ) → r < 2 ^ k → bit_or (q * 2 ^ k) r ≡ q * 2 ^ k + r
or_low k q r h =
    rw
      (
        or_split k (q * 2 ^ k) r,
        mul-div_left q (pow_pos k),
        div-eq_of_lt h,
        mod-eq_of_lt h,
        mul-mod_left q (2 ^ k),
        or-zero q,
        zero-or r,
      )
      refl

max_bit : (a b : ℕ) → max (a % 2) (b % 2) < 2
max_bit a b = ground arith

-- A bit of `a | b`.
pub or_bit : (k a b : ℕ) → bit_or a b / 2 ^ k % 2 ≡ max (a / 2 ^ k % 2) (b / 2 ^ k % 2)
or_bit zero a b = omega (arith, or_digit a b, max_bit a b)
or_bit (suc k) a b =
    let half : bit_or a b / 2 ≡ bit_or (a / 2) (b / 2) = omega (arith, or_digit a b, max_bit a b) in
    rw (high_suc k (bit_or a b), half, high_suc k a, high_suc k b) (or_bit k (a / 2) (b / 2))
