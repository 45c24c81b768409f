-- ===== src/Base/Memory.antt =====
-- Memory as the kernel's pointers see it, a byte at each address, and the little-endian words in it.
use Prim.Native.Nat.{ℕ, zero, suc, ◌+◌, ◌*◌, ◌/◌, ◌%◌, ◌^◌, ◌≤◌, ◌<◌}
use mathlib.Core.Path.{◌≡◌, refl}
use mathlib.Core.Logic.{◌⊎◌}
use native.Mathlib.Nat.{pow-suc, one-le-pow}
use native.Mathlib.Omega.{arith}
use utero_archive.Base.Tests.{◌==◌, if◌then◌else◌}

abbrev pub Memory : Type 0
Memory = ℕ → ℕ

abbrev pub poke : Memory → ℕ → ℕ → Memory
poke mem a v x = if x == a then v else mem x

-- The number in the `n` bytes from an address on.
unfoldable pub load : ℕ → Memory → ℕ → ℕ
load zero mem a = 0
load (suc n) mem a = load n mem (a + 1) * 256 + mem a % 256

unfoldable pub store : ℕ → Memory → ℕ → ℕ → Memory
store zero mem a v = mem
store (suc n) mem a v = store n (poke mem a (v % 256)) (a + 1) (v / 256)

pub store_outside :
    (n : ℕ) (mem : Memory) (a v x : ℕ) → (x < a) ⊎ (a + n ≤ x) → store n mem a v x ≡ mem x
unfolding store
store_outside zero mem a v x h = refl
store_outside (suc n) mem a v x h =
    ground (arith, store_outside n (poke mem a (v % 256)) (a + 1) (v / 256) x)

-- What a store leaves in the bytes that it does not touch.
pub load-store_apart :
    (m n : ℕ) (mem : Memory) (a b v : ℕ)
    → (b + m ≤ a) ⊎ (a + n ≤ b)
    → load m (store n mem a v) b ≡ load m mem b
unfolding load
load-store_apart zero n mem a b v h = refl
load-store_apart (suc m) n mem a b v h =
    rw (load-store_apart m n mem a (b + 1) v (omega arith), store_outside n mem a v b (omega arith))
      refl

byte_mod : (p v : ℕ) → 0 < p → v / 256 % p * 256 + v % 256 ≡ v % (256 * p)
byte_mod p v h = grind arith

-- A word that is stored is found again, cut to its bytes.
pub load-store : (n : ℕ) (mem : Memory) (a v : ℕ) → load n (store n mem a v) a ≡ v % 256 ^ n
unfolding load store
load-store zero mem a v = omega arith
load-store (suc n) mem a v =
    let below = store_outside n (poke mem a (v % 256)) (a + 1) (v / 256) a (omega arith) in
    let power : 256 ^ suc n ≡ 256 * 256 ^ n = omega (arith, pow-suc 256 n) in
    rw (load-store n (poke mem a (v % 256)) (a + 1) (v / 256), below, power)
      (ground (arith, byte_mod (256 ^ n) v (one-le-pow n 256 (omega arith))))

pub load-lt : (n : ℕ) (mem : Memory) (a : ℕ) → load n mem a < 256 ^ n
unfolding load
load-lt zero mem a = omega arith
load-lt (suc n) mem a = omega (arith, load-lt n mem (a + 1), pow-suc 256 n)

pub load_cong :
    (n : ℕ) (mem mem' : Memory) (a : ℕ)
    → ((x : ℕ) → a ≤ x → x < a + n → mem x ≡ mem' x)
    → load n mem a ≡ load n mem' a
unfolding load
load_cong zero mem mem' a h = refl
load_cong (suc n) mem mem' a h =
    rw
      (
        load_cong n mem mem' (a + 1) (λ x lo hi. h x (omega arith) (omega arith)),
        h a (omega arith) (omega arith),
      )
      refl
