-- ===== src/Core/Boot/Tags.antt =====
-- The tags as a list, and that a search finds the first of a kind.
use utero_archive.Base.{
  ℕ, zero, suc, ◌+◌, ◌*◌, ◌/◌, ◌%◌, ◌^◌, ◌≤◌, ◌<◌, ◌≡◌, ◌≢◌, refl, true, false, ◌↔◌, arith, ◌==◌,
  if◌then◌else◌, bit_and, u32, some, List, [], ◌∷◌, length,
}
use utero_archive.Base.Bits.{and_low, and_split, and-zero}
use utero_archive.Base.Memory.{Memory}
use utero_archive.Core.Boot.{
  valid, invalid_magic, unaligned, multiboot_is_valid, multiboot2_magic_value, tag_type, tag_size,
  tag_end, next_tag, find_multiboot_tag,
}

-- The tags from an address on, up to the one of the end.
abbrev pub TagsFrom : Memory → ℕ → List ℕ → ℕ → Type 0
TagsFrom mem a [] stop = (a ≡ stop) × (tag_type mem a ≡ tag_end)
TagsFrom mem a (t ∷ ts) stop =
    (a ≡ t) × (tag_type mem a ≢ tag_end) × TagsFrom mem (next_tag mem a) ts stop

-- The first tag of a kind, 0 if there is none.
unfoldable pub first_of_type : Memory → ℕ → List ℕ → ℕ
first_of_type mem type [] = 0
first_of_type mem type (t ∷ ts) = if tag_type mem t == type then t else first_of_type mem type ts

-- A search through tags that end returns, with one unit of fuel more than there are tags before
-- the end: the first tag of the kind, or 0 if there is none.
pub find_multiboot_tag-first :
    (mem : Memory) (ts : List ℕ) (tag stop type fuel : ℕ)
    → TagsFrom mem tag ts stop
    → length ts < fuel
    → find_multiboot_tag fuel mem tag type ≡ some (first_of_type mem type ts)
unfolding find_multiboot_tag first_of_type
find_multiboot_tag-first mem ts tag stop type zero h f = absurd (omega arith)
find_multiboot_tag-first mem [] tag stop type (suc fuel) (e, last) f = rw last refl
find_multiboot_tag-first mem (t ∷ ts) tag stop type (suc fuel) (e, more, rest) f =
    let later =
      find_multiboot_tag-first mem ts (next_tag mem tag) stop type fuel rest (omega arith) in
    let go_on : (tag_type mem tag == tag_end) ≡ false = ground arith in
    rw go_on (rw (later, e) (push (tag_type mem t == type)))
  where
    push :
        (b : _)
        → (if b then some t else some (first_of_type mem type ts))
          ≡ some (if b then t else first_of_type mem type ts)
    push true = refl
    push false = refl

round_up : (n : ℕ) → n < 2 ^ 32 → bit_and n 0xfffffff8 ≡ n / 8 * 8
round_up n h = omega (arith, and_split 3 n 0xfffffff8, and_low 29 (n / 8), and-zero (n % 8))

-- A tag starts at the next multiple of eight behind the one before, if that one is aligned and does
-- not reach the end of the address space, nor its size the end of 32 bits.
pub next_tag_lem :
    (mem : Memory) (tag : ℕ)
    → tag % 8 ≡ 0
    → tag_size mem tag + 7 < 2 ^ 32
    → tag + tag_size mem tag + 7 < 2 ^ 64
    → (next_tag mem tag % 8 ≡ 0)
      × (tag + tag_size mem tag ≤ next_tag mem tag)
      × (next_tag mem tag < tag + tag_size mem tag + 8)
unfolding next_tag
next_tag_lem mem tag aligned size room =
    let whole : u32 (tag_size mem tag + 7) ≡ tag_size mem tag + 7 = omega arith in
    rw (whole, round_up (tag_size mem tag + 7) size) (omega arith)

-- The boot loader's call is accepted exactly with its magic number and an address that is a
-- multiple of eight; a wrong magic number is told first.
pub multiboot_is_valid_lem :
    (magic addr : ℕ)
    → ((multiboot_is_valid magic addr ≡ valid)
        ↔ ((magic ≡ multiboot2_magic_value) × (addr % 8 ≡ 0)))
      × (magic ≢ multiboot2_magic_value → multiboot_is_valid magic addr ≡ invalid_magic (u32 magic))
      × (magic ≡ multiboot2_magic_value
          → addr % 8 ≢ 0
          → multiboot_is_valid magic addr ≡ unaligned (u32 addr))
unfolding multiboot_is_valid
multiboot_is_valid_lem magic addr =
    let low = and_low 3 addr in
    (
      (λ e. ground (arith, low), λ h. ground (arith, low)),
      λ ne. ground arith,
      λ e ne. ground (arith, low),
    )
