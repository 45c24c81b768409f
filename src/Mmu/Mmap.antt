-- ===== src/Mmu/Mmap.antt =====
-- The frame allocator (src/mmu/mmap.c, src/include/mmu/mmap.h): the walk of the boot loader's
-- memory map in chunks of a page, and the allocator over it. The entries of the map are a list,
-- in the order in which the pointer loop meets them. `none` means that the fuel ran out.
pub mod Chunks
pub mod Read
pub mod Frames
pub mod Order
pub mod Limits
use utero_archive.Base.{
  ℕ, zero, suc, ◌+◌, ◌*◌, ◌/◌, Bool, ◌&&◌, ◌||◌, not, Option, none, some, List, [], ◌∷◌, ltb, leb,
  ◌==◌, if◌then◌else◌, u32, u64,
}

abbrev pub page_size : ℕ
page_size = 4096

abbrev pub memory_available : ℕ
memory_available = 1

abbrev pub memory_reserved : ℕ
memory_reserved = 2

abbrev pub get_num : ℕ
get_num = 0

abbrev pub get_addr : ℕ
get_addr = 1

-- multiboot_mmap_entry_t
pub record MmapEntry : Type 0 where
  pub addr : ℕ
  pub len : ℕ
  pub type : ℕ

-- reserved_areas_t
pub record ReservedAreas : Type 0 where
  pub kernel_start : ℕ
  pub kernel_end : ℕ
  pub multiboot_start : ℕ
  pub multiboot_end : ℕ

-- The file's global variables.
pub record Mmap : Type 0 where
  pub memory_area : List MmapEntry
  pub kernel_start : ℕ
  pub kernel_end : ℕ
  pub multiboot_start : ℕ
  pub multiboot_end : ℕ
  pub next_free_frame : ℕ

unfoldable pub mmap_init : List MmapEntry → ReservedAreas → Mmap
mmap_init mmap reserved = record {
  memory_area = mmap;
  kernel_start = reserved.kernel_start;
  kernel_end = reserved.kernel_end;
  multiboot_start = reserved.multiboot_start;
  multiboot_end = reserved.multiboot_end;
  next_free_frame = 1;
}

-- How the loop over the chunks of one entry ends: by a return, or with the two variables that
-- the next entry's loop goes on with.
pub data Walk : Type 0 where
  found : ℕ → Walk
  next : ℕ → ℕ → Walk
  out_of_fuel : Walk

-- The inner loop of `mmap_read` at address `i`, after the tests of one chunk the next one.
unfoldable pub chunk_loop : ℕ → MmapEntry → ℕ → ℕ → ℕ → ℕ → Walk
chunk_loop zero entry mode i cur_num request = out_of_fuel
chunk_loop (suc fuel) entry mode i cur_num request =
    let wanted = mode == get_addr && cur_num == request in
    let skip =
      chunk_loop fuel entry mode (u64 (i + page_size)) (u32 (cur_num + 1))
        (if wanted then u32 (request + 1) else request) in
    let go_on = chunk_loop fuel entry mode (u64 (i + page_size)) (u32 (cur_num + 1)) request in
    let entry_end = u64 (entry.addr + entry.len) in
    if not (ltb (u64 (i + page_size)) entry_end)
    then next cur_num request
    else if mode == get_num && (leb i request && leb request (u64 (i + page_size)))
    then found (u32 (cur_num + 1))
    else if entry.type == memory_reserved
    then skip
    else if wanted
    then found i
    else go_on

-- The outer loop. An entry of `len` bytes has fewer than `len / page_size + 1` chunks.
unfoldable pub entry_loop : List MmapEntry → ℕ → ℕ → ℕ → Option ℕ
entry_loop [] mode cur_num request = some 0
entry_loop (entry ∷ entries) mode cur_num request =
    elim (chunk_loop (entry.len / page_size + 1) entry mode entry.addr cur_num request) [
      | found a ↦ some a
      | next cur_num' request' ↦ entry_loop entries mode cur_num' request'
      | out_of_fuel ↦ none
    ]

unfoldable pub mmap_read : List MmapEntry → ℕ → ℕ → Option ℕ
mmap_read memory_area request mode =
    if not (mode == get_num) && not (mode == get_addr)
    then some 0
    else entry_loop memory_area mode 0 request

-- The test that sends the allocator to the next frame number.
unfoldable pub in_reserved_area : Mmap → ℕ → Bool
in_reserved_area m addr =
    leb m.multiboot_start addr && leb addr m.multiboot_end
    || leb m.kernel_start addr && leb addr m.kernel_end

-- The frame number and the new state. The fuel bounds the recursion.
unfoldable pub mmap_allocate_frame : ℕ → Mmap → Option (ℕ × Mmap)
mmap_allocate_frame zero m = none
mmap_allocate_frame (suc fuel) m = elim (mmap_read m.memory_area m.next_free_frame get_addr) [
  | none ↦ none
  | some current_addr ↦
      let again =
        mmap_allocate_frame fuel (record m { next_free_frame = u32 (m.next_free_frame + 1) }) in
      let num = mmap_read m.memory_area (u32 current_addr) get_num in
      let answer : Option (ℕ × Mmap) = elim num [
        | none ↦ none
        | some current_frame_num ↦
            some (current_frame_num, record m { next_free_frame = u32 (current_frame_num + 1) })
      ] in
      if in_reserved_area m current_addr then again else answer
]

unfoldable pub frame_containing_address : ℕ → ℕ
frame_containing_address addr = u32 (addr / page_size)

-- The product is of type `uint32_t`, since `frame_t` is.
unfoldable pub frame_starting_address : ℕ → ℕ
frame_starting_address frame = u32 (frame * page_size)

-- The loop that stores a zero `uint64_t` at `addr` and the words after it, on a memory of bytes.
pub zero_words : ℕ → ℕ → (ℕ → ℕ) → ℕ → ℕ
zero_words zero addr mem = mem
zero_words (suc n) addr mem =
    zero_words n (addr + 8) (λ a. if leb addr a && ltb a (addr + 8) then 0 else mem a)

pub mmap_deallocate_frame : ℕ → (ℕ → ℕ) → ℕ → ℕ
mmap_deallocate_frame frame mem = zero_words page_size (frame_starting_address frame) mem
