-- ===== src/Examples/Libk.antt =====
-- The theorems on src/libk at concrete inputs.
use utero_archive.Base.{ℕ, ◌-◌, ◌^◌, ◌≡◌, ◌≢◌, ◌⊎◌, inl, some, none, List, ◌∷◌, arith}
use utero_archive.Base.Int.{ℤ, negsuc}
use utero_archive.Libk.Itoa.{itoa, ulltoa}
use utero_archive.Libk.Itoa.Numbers.{Denotes, ReadsAs, ulltoa-Denotes, ulltoa_bit_31, itoa-ReadsAs}

ulltoa-Denotes_example : (s : List ℕ) × (ulltoa 0xB8000 16 ≡ some s) × Denotes 16 0xB8000 s
ulltoa-Denotes_example =
    ulltoa-Denotes 0xB8000 16 (omega arith) (omega arith) (omega arith) (inl (omega arith))

ulltoa_bit_31_example :
    (s : List ℕ) × (ulltoa 4000000000 10 ≡ some (b'-' ∷ s)) × Denotes 10 (2 ^ 64 - 4000000000) s
ulltoa_bit_31_example = ulltoa_bit_31 4000000000 (omega arith) (omega arith)

itoa-ReadsAs_example :
    ((◌≢◌ {A = ℤ} (negsuc 41) (negsuc (2 ^ 31 - 1)))
      × (s : List ℕ) × (itoa (negsuc 41) 10 ≡ some s)
      × ReadsAs (negsuc 41) s)
    ⊎ ((negsuc 41 ≡ negsuc (2 ^ 31 - 1)) × (itoa (negsuc 41) 10 ≡ none))
itoa-ReadsAs_example = itoa-ReadsAs (negsuc 41) (omega arith)
