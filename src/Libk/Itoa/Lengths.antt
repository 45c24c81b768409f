-- ===== src/Libk/Itoa/Lengths.antt =====
-- How long the texts of numbers are.
use utero_archive.Base.{
  ℕ, zero, suc, ◌^◌, ◌≤◌, ◌<◌, ◌%◌, ◌≡◌, ◌≢◌, refl, ◌∙◌, ◌⊎◌, List, [], ◌∷◌, reverse, arith, length,
  length-reverse, Option, some,
}
use utero_archive.Base.Int.{pos}
use utero_archive.Libk.Itoa.{itoa, ulltoa, ulltoa_loop}
use utero_archive.Libk.Itoa.Digits.{length-ulltoa_loop_below}
use utero_archive.Libk.Itoa.Numbers.{
  Denotes, loop-Denotes, zero-Denotes, itoa_plain, ulltoa_plain, strrev_loop-end,
}

-- A text that a call writes: what it denotes, and a bound on its length.
pub record Writes (base n k : ℕ) (result : Option (List ℕ)) : Type 0 where
  pub str : List ℕ
  pub returns : result ≡ some str
  pub denotes : Denotes base n str
  pub short : length str ≤ k

module _ (base : ℕ) (two : 2 ≤ base) (most : base ≤ 36) where
  reversed-short :
      (fuel n k : ℕ) → n < base ^ suc k → length (reverse (ulltoa_loop fuel n base)) ≤ suc k
  reversed-short fuel n k h = omega (
    arith,
    length-reverse {0} (ulltoa_loop fuel n base),
    length-ulltoa_loop_below base two most fuel k n h,
  )

  pub itoa-Writes :
      (n k : ℕ) → n < 2 ^ 31 → n < base ^ suc k → Writes base n (suc k) (itoa (pos n) base)
  unfolding itoa
  itoa-Writes zero k h small = record {
    str = b'0' ∷ [];
    returns = refl;
    denotes = zero-Denotes base two;
    short = omega arith;
  }
  itoa-Writes (suc n) k h small = record {
    str = reverse (ulltoa_loop 32 (suc n) base);
    returns =
        itoa_plain n base two ∙ strrev_loop-end 31 (suc n) base [] (omega arith) (omega arith);
    denotes = loop-Denotes 31 (suc n) base two most (omega arith);
    short = reversed-short 32 (suc n) k small;
  }

  pub ulltoa-Writes :
      (n k : ℕ)
      → n < 2 ^ 64
      → n < base ^ suc k
      → (base ≢ 10) ⊎ (n % 2 ^ 32 < 2 ^ 31)
      → Writes base n (suc k) (ulltoa n base)
  unfolding ulltoa
  ulltoa-Writes zero k h small ok = record {
    str = b'0' ∷ [];
    returns = refl;
    denotes = zero-Denotes base two;
    short = omega arith;
  }
  ulltoa-Writes (suc n) k h small ok = record {
    str = reverse (ulltoa_loop 64 (suc n) base);
    returns =
        ulltoa_plain n base two (ground arith)
        ∙ strrev_loop-end 63 (suc n) base [] (omega arith) (omega arith);
    denotes = loop-Denotes 63 (suc n) base two most h;
    short = reversed-short 64 (suc n) k small;
  }
