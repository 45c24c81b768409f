-- ===== src/Mmu/Mmap/Limits.antt =====
-- Where the allocator's arithmetic ends: the end of the map, the edge of a reserved area, frames
-- above 4 GiB, and what a deallocation clears.
use utero_archive.Base.{
  ℕ, zero, suc, ◌+◌, ◌*◌, ◌^◌, ◌≤◌, ◌<◌, ◌≡◌, refl, ◌&&◌, ◌↔◌, some, List, [], ◌∷◌, arith, leb, ltb,
  if◌then◌else◌, u32,
}
use utero_archive.Mmu.Mmap.{
  page_size, Mmap, in_reserved_area, mmap_allocate_frame, zero_words, mmap_deallocate_frame,
  frame_starting_address, frame_containing_address,
}
use utero_archive.Mmu.Mmap.Chunks.{Chunk, chunks, number_of}
use utero_archive.Mmu.Mmap.Frames.{IsMap, candidate, step_free}

abbrev pub StartsAtZero : List Chunk → Type 0
StartsAtZero [] = ⊥
StartsAtZero (c ∷ cs) = c.addr ≡ 0

number_of_zero : (cs : List Chunk) → StartsAtZero cs → number_of 0 cs 0 ≡ 1
unfolding number_of
number_of_zero [] z = absurd z
number_of_zero (c ∷ cs) z = ground arith

-- When no chunk is left, the allocator does not fail: on a map whose first chunk lies at address 0
-- it hands out frame 1 again, and starts anew.
pub mmap_allocate_frame_exhausted :
    (m : Mmap) (fuel : ℕ)
    → IsMap m
    → m.next_free_frame ≤ 2 ^ 31
    → candidate m m.next_free_frame ≡ 0
    → StartsAtZero (chunks m.memory_area)
    → mmap_allocate_frame (suc fuel) m ≡ some (1, record m { next_free_frame = 2 })
mmap_allocate_frame_exhausted m fuel ok h e z =
    let one = number_of_zero (chunks m.memory_area) z in
    rw (step_free m ok fuel m.next_free_frame h (rw e ok.zero_free), e, one) refl

-- The test looks at a frame's first address alone: a free frame that starts below the multiboot
-- information and reaches into it is handed out.
pub mmap_allocate_frame_overlap :
    (m : Mmap) (fuel : ℕ)
    → IsMap m
    → m.next_free_frame ≤ 2 ^ 31
    → candidate m m.next_free_frame < m.multiboot_start
    → m.multiboot_start < candidate m m.next_free_frame + page_size
    → candidate m m.next_free_frame < m.kernel_start
    → let n = number_of 0 (chunks m.memory_area) (u32 (candidate m m.next_free_frame)) in
      mmap_allocate_frame (suc fuel) m ≡ some (n, record m { next_free_frame = u32 (n + 1) })
unfolding in_reserved_area
mmap_allocate_frame_overlap m fuel ok h below into kernel =
    step_free m ok fuel m.next_free_frame h (ground arith)

-- The address of a frame is `frame * 4096` exactly when the frame lies below 4 GiB.
pub frame_starting_address_iff :
    (frame : ℕ)
    → frame < 2 ^ 32
    → (frame_starting_address frame ≡ frame * page_size) ↔ (frame < 2 ^ 20)
unfolding frame_starting_address
frame_starting_address_iff frame h = (λ e. omega arith, λ e. omega arith)

-- Below 4 GiB every address of a frame leads back to it.
pub frame_containing_address-starting :
    (frame offset : ℕ)
    → frame < 2 ^ 20
    → offset < page_size
    → frame_containing_address (frame_starting_address frame + offset) ≡ frame
unfolding frame_starting_address frame_containing_address
frame_containing_address-starting frame offset h o = omega arith

zero_words_lem :
    (n addr : ℕ) (mem : ℕ → ℕ) (a : ℕ)
    → zero_words n addr mem a ≡ (if leb addr a && ltb a (addr + n * 8) then 0 else mem a)
unfolding zero_words
zero_words_lem zero addr mem a = ground arith
zero_words_lem (suc n) addr mem a = ground (
  arith,
  zero_words_lem n (addr + 8) (λ x. if leb addr x && ltb x (addr + 8) then 0 else mem x) a,
)

-- Deallocating a frame clears the 32768 bytes from its address on, which are eight frames, and
-- no other byte.
pub mmap_deallocate_frame_lem :
    (frame : ℕ) (mem : ℕ → ℕ) (a : ℕ)
    → let start = frame_starting_address frame in
      mmap_deallocate_frame frame mem a
      ≡ (if leb start a && ltb a (start + 8 * page_size) then 0 else mem a)
unfolding mmap_deallocate_frame
mmap_deallocate_frame_lem frame mem a =
    zero_words_lem page_size (frame_starting_address frame) mem a
