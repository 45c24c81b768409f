-- ===== src/Base/Digits.antt =====
-- The lowest binary digit of `bit_and` and `bit_or`: one equation for each, with no fuel. The
-- native operations are given by `bitwise`, a recursion on the digits of the left number.
use Prim.Native.Nat.{ℕ, zero, suc, ◌+◌, ◌*◌, ◌/◌, ◌%◌, ◌≤◌, min, max}
use Prim.Native.Nat.{digits, bit_and, bit_or, bit_and-bitwise, bit_or-bitwise}
use mathlib.Core.Path.{◌≡◌, refl}
use native.Mathlib.Nat.{le_refl}
use native.Mathlib.Omega.{arith}

module _ (rest : ℕ → ℕ) (op : ℕ → ℕ → ℕ) where
  -- More fuel than the number changes nothing.
  any_fuel : (f g a b : ℕ) → a ≤ f → a ≤ g → digits rest op f a b ≡ digits rest op g a b
  any_fuel zero zero a b h k = refl
  any_fuel zero (suc g) zero b h k = refl
  any_fuel (suc f) zero zero b h k = refl
  any_fuel (suc f) (suc g) zero b h k = refl
  any_fuel zero g (suc a) b h k = absurd (omega arith)
  any_fuel (suc f) zero (suc a) b h k = absurd (omega arith)
  any_fuel (suc f) (suc g) (suc a) b h k =
      rw (any_fuel f g (suc a / 2) (b / 2) (omega arith) (omega arith)) refl

  -- One digit of a nonzero number.
  peel :
      (a b : ℕ)
      → digits rest op (suc a) (suc a) b
        ≡ digits rest op (suc a / 2) (suc a / 2) (b / 2) * 2 + op (suc a % 2) (b % 2)
  peel a b = rw (any_fuel a (suc a / 2) (suc a / 2) (b / 2) (omega arith) (le_refl _)) refl

pub and_digit : (a b : ℕ) → bit_and a b ≡ bit_and (a / 2) (b / 2) * 2 + min (a % 2) (b % 2)
and_digit zero b = omega (arith, bit_and-bitwise 0 b, bit_and-bitwise 0 (b / 2))
and_digit (suc a) b = simp bit_and-bitwise (peel (λ y. 0) min a b)

pub or_digit : (a b : ℕ) → bit_or a b ≡ bit_or (a / 2) (b / 2) * 2 + max (a % 2) (b % 2)
or_digit zero b = omega (arith, bit_or-bitwise 0 b, bit_or-bitwise 0 (b / 2))
or_digit (suc a) b = simp bit_or-bitwise (peel (λ y. y) max a b)
