-- ===== src/Mmu/Paging/Entries.antt =====
-- What an entry's word holds: its frame, and the bits that an update keeps.
use utero_archive.Base.{
  ℕ, ◌+◌, ◌*◌, ◌/◌, ◌%◌, ◌^◌, ◌≤◌, ◌<◌, ◌≡◌, ◌≢◌, refl, ◌∙◌, true, arith, if◌then◌else◌, bit_and,
  bit_or, u8, u32, u64, ◌⊎◌,
}
use utero_archive.Base.Bits.{and_low, and_split, or_low, or_split, and-zero, or-zero}
use utero_archive.Base.Memory.{Memory, load, store, load-store, store_outside}
use utero_archive.Mmu.Mmap.{page_size, frame_containing_address}
use utero_archive.Mmu.Paging.{
  present, writable, set_present, set_addr_mask, pointed_frame, fresh_entry, write_entry,
}

keep_mask : (e : ℕ) → bit_and e 0xfff0000000000fff ≡ e / 2 ^ 52 % 2 ^ 12 * 2 ^ 52 + e % 2 ^ 12
keep_mask e = omega (
  arith,
  and_split 12 e 0xfff0000000000fff,
  and_low 12 (e % 2 ^ 12),
  and_split 40 (e / 2 ^ 12) 0xfff0000000000,
  and_low 12 (e / 2 ^ 12 / 2 ^ 40),
  and-zero (e / 2 ^ 12 % 2 ^ 40),
)

frame_mask : (e : ℕ) → bit_and e 0x000ffffffffff000 ≡ e / 2 ^ 12 % 2 ^ 40 * 2 ^ 12
frame_mask e =
    omega (arith, and_split 12 e 0x000ffffffffff000, and_low 40 (e / 2 ^ 12), and-zero (e % 2 ^ 12))

or_fields :
    (hi f lo : ℕ)
    → f < 2 ^ 40
    → lo < 2 ^ 12
    → bit_or (hi * 2 ^ 52 + lo) (f * 2 ^ 12) ≡ hi * 2 ^ 52 + f * 2 ^ 12 + lo
or_fields hi f lo h k =
    let a : (hi * 2 ^ 52 + lo) / 2 ^ 12 ≡ hi * 2 ^ 40 = omega arith in
    let b : f * 2 ^ 12 / 2 ^ 12 ≡ f = omega arith in
    let c : (hi * 2 ^ 52 + lo) % 2 ^ 12 ≡ lo = omega arith in
    let d : f * 2 ^ 12 % 2 ^ 12 ≡ 0 = omega arith in
    rw (or_split 12 (hi * 2 ^ 52 + lo) (f * 2 ^ 12), a, b, c, d, or-zero lo, or_low 40 hi f h)
      (omega arith)

-- The mask keeps the 12 lowest and the 12 highest bits, and the frame number stands between them.
pub set_addr_mask_lem :
    (e frame : ℕ)
    → frame < 2 ^ 40
    → set_addr_mask e frame ≡ e / 2 ^ 52 % 2 ^ 12 * 2 ^ 52 + frame * 2 ^ 12 + e % 2 ^ 12
unfolding set_addr_mask
set_addr_mask_lem e frame h =
    let whole : u64 (frame * page_size) ≡ frame * 2 ^ 12 = omega arith in
    rw (keep_mask e, whole) (or_fields (e / 2 ^ 52 % 2 ^ 12) frame (e % 2 ^ 12) h (omega arith))

pub pointed_frame_lem :
    (e : ℕ) → pointed_frame e ≡ (if present e then u32 (e / 2 ^ 12 % 2 ^ 40) else 0)
unfolding pointed_frame frame_containing_address
pointed_frame_lem e =
    let whole : e / 2 ^ 12 % 2 ^ 40 * 2 ^ 12 / page_size ≡ e / 2 ^ 12 % 2 ^ 40 = omega arith in
    rw (frame_mask e, whole) refl

pub present-set_present : (e : ℕ) → present (set_present e) ≡ true
present-set_present e = ground arith

-- A frame number that is put into an entry, whatever the entry was, is found in it when the entry
-- is present, and of the entry's other bits none but the present bit changes.
pub pointed_frame-set_addr_mask :
    (e frame : ℕ)
    → frame < 2 ^ 32
    → let e' = set_present (set_addr_mask e frame) in
      (pointed_frame e' ≡ frame)
      × (e' % 2 ^ 12 / 2 ≡ e % 2 ^ 12 / 2)
      × (e' / 2 ^ 52 ≡ e / 2 ^ 52 % 2 ^ 12)
pointed_frame-set_addr_mask e frame h =
    let e' = set_present (set_addr_mask e frame) in
    let word = set_addr_mask_lem e frame (omega arith) in
    let on = present-set_present (set_addr_mask e frame) in
    (
      pointed_frame_lem e' ∙ rw on (ground (arith, word)),
      ground (arith, word),
      ground (arith, word),
    )

-- A new table's entry is given the frame's address where `set_addr_mask` expects its number: the
-- entry is present and writable, and it points to the frame whose number is the address. For no
-- address but 0 below 4 GiB is that the frame that was allocated.
pub fresh_entry_misplaced :
    (e addr : ℕ)
    → addr < 2 ^ 32
    → (present (fresh_entry e addr) ≡ true)
      × (writable (fresh_entry e addr) ≡ true)
      × (pointed_frame (fresh_entry e addr) ≡ addr)
      × (addr ≢ 0 → pointed_frame (fresh_entry e addr) ≢ frame_containing_address addr)
unfolding fresh_entry frame_containing_address
fresh_entry_misplaced e addr h =
    let word = set_addr_mask_lem e addr (omega arith) in
    let on : present (fresh_entry e addr) ≡ true = unfold fresh_entry in ground arith in
    let points : pointed_frame (fresh_entry e addr) ≡ addr =
      pointed_frame_lem (fresh_entry e addr) ∙ rw on (unfold fresh_entry in ground (arith, word)) in
    (on, ground arith, points, λ ne same. ne (omega (arith, points, same)))

-- The word that `map_page_to_frame` leaves in the last level.
pub write_entry_lem :
    (at frame flags : ℕ) (mem : Memory)
    → load 8 (write_entry at frame flags mem) at ≡ set_present (u8 flags)
unfolding write_entry
write_entry_lem at frame flags mem =
    let masked = store 8 mem at (set_addr_mask (load 8 mem at) (u32 frame)) in
    let flagged = store 8 masked at (u8 flags) in
    let word : load 8 flagged at ≡ u8 flags = load-store 8 masked at (u8 flags) ∙ omega arith in
    load-store 8 flagged at (set_present (load 8 flagged at)) ∙ rw word (ground arith)

pub write_entry_outside :
    (at frame flags : ℕ) (mem : Memory) (x : ℕ)
    → (x < at) ⊎ (at + 8 ≤ x)
    → write_entry at frame flags mem x ≡ mem x
unfolding write_entry
write_entry_outside at frame flags mem x h =
    let masked = store 8 mem at (set_addr_mask (load 8 mem at) (u32 frame)) in
    let flagged = store 8 masked at (u8 flags) in
    store_outside 8 flagged at (set_present (load 8 flagged at)) x h
    ∙ store_outside 8 masked at (u8 flags) x h
    ∙ store_outside 8 mem at (set_addr_mask (load 8 mem at) (u32 frame)) x h

pub fresh_entry-lt : (e addr : ℕ) → addr < 2 ^ 32 → e < 2 ^ 64 → fresh_entry e addr < 256 ^ 8
unfolding fresh_entry
fresh_entry-lt e addr h small =
    let word = set_addr_mask_lem e addr (omega arith) in ground (arith, word)
