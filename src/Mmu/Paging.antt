-- ===== src/Mmu/Paging.antt =====
-- Page tables (src/mmu/paging.c, src/include/mmu/paging.h), through the recursive window at the end
-- of the address space. Memory is what the kernel's pointers see. An entry is its 64-bit word, and
-- its bit fields are bits of it. A frame number is a `uint32_t`, and so is the argument of the
-- functions that take a page's indices apart.
pub mod Window
pub mod Entries
pub mod Mapping
pub mod Huge
use utero_archive.Base.{
  ℕ, ◌+◌, ◌-◌, ◌*◌, ◌/◌, ◌%◌, ◌^◌, Bool, true, false, ◌&&◌, not, Option, none, some, ◌==◌,
  if◌then◌else◌, bit_and, bit_or, u8, u32, u64,
}
use utero_archive.Base.Memory.{Memory, load, store}
use utero_archive.Mmu.Mmap.{
  page_size, get_addr, Mmap, mmap_read, mmap_allocate_frame, frame_containing_address,
  frame_starting_address, mmap_deallocate_frame,
}

abbrev pub p4_table : ℕ
p4_table = 0xfffffffffffff000

pub p4_index : ℕ → ℕ
p4_index frame = bit_and (u32 frame / 2 ^ 27) 0o777

pub p3_index : ℕ → ℕ
p3_index frame = bit_and (u32 frame / 2 ^ 18) 0o777

pub p2_index : ℕ → ℕ
p2_index frame = bit_and (u32 frame / 2 ^ 9) 0o777

pub p1_index : ℕ → ℕ
p1_index frame = bit_and (u32 frame) 0o777

pub page_containing_address : ℕ → ℕ
page_containing_address addr = addr / page_size

pub page_starting_address : ℕ → ℕ
page_starting_address page = u64 (page * page_size)

-- The bits `present`, `writable` and `huge_page` of an entry.
abbrev pub present : ℕ → Bool
present entry = entry % 2 == 1

abbrev pub writable : ℕ → Bool
writable entry = entry / 2 % 2 == 1

abbrev pub huge_page : ℕ → Bool
huge_page entry = entry / 2 ^ 7 % 2 == 1

abbrev pub set_present : ℕ → ℕ
set_present entry = if present entry then entry else entry + 1

abbrev pub clear_present : ℕ → ℕ
clear_present entry = if present entry then entry - 1 else entry

abbrev pub set_writable : ℕ → ℕ
set_writable entry = if writable entry then entry else entry + 2

-- &table[index]
abbrev pub entry_address : ℕ → ℕ → ℕ
entry_address table index = u64 (table + 8 * index)

-- The packed word of an entry with another frame in it.
pub set_addr_mask : ℕ → ℕ → ℕ
set_addr_mask entry addr = bit_or (bit_and entry 0xfff0000000000fff) (u64 (addr * page_size))

pub pointed_frame : ℕ → ℕ
pointed_frame entry =
    if present entry then frame_containing_address (bit_and entry 0x000ffffffffff000) else 0

pub next_table_address : Memory → ℕ → ℕ → ℕ
next_table_address mem table index =
    let entry = load 8 mem (entry_address table (u32 index)) in
    if present entry && not (huge_page entry)
    then bit_or (u64 (table * 2 ^ 9)) (u32 (u32 index * 2 ^ 12))
    else 0

pub translate_page : Memory → ℕ → ℕ
translate_page mem page =
    let p3 = next_table_address mem p4_table (p4_index page) in
    let p2 = next_table_address mem p3 (p3_index page) in
    let p1 = next_table_address mem p2 (p2_index page) in
    if p3 == 0
    then 0
    else if p2 == 0
    then 0
    else if p1 == 0
    then 0
    else pointed_frame (load 8 mem (entry_address p1 (p1_index page)))

pub translate : Memory → ℕ → ℕ
translate mem addr =
    let virt = page_containing_address addr in
    u64 (page_starting_address (translate_page mem virt) + virt % page_size)

-- The allocator's variables and memory.
pub record Mmu : Type 0 where
  pub mmap : Mmap
  pub memory : Memory

-- A table's entry that is given a frame of its own.
pub fresh_entry : ℕ → ℕ → ℕ
fresh_entry entry addr = set_writable (set_present (set_addr_mask entry addr))

pub allocate_table : ℕ → ℕ → Mmu → Option Mmu
allocate_table fuel at s = elim (mmap_allocate_frame fuel s.mmap) [
  | none ↦ none
  | some (frame, mmap) ↦ elim (mmap_read mmap.memory_area frame get_addr) [
    | none ↦ none
    | some addr ↦ some (record {
      mmap = mmap;
      memory = store 8 s.memory at (fresh_entry (load 8 s.memory at) addr);
    })
  ]
]

-- The fuel is the allocator's.
pub next_table_create : ℕ → ℕ → ℕ → Mmu → Option (ℕ × Mmu)
next_table_create fuel table index s =
    let at = entry_address table index in
    elim (if present (load 8 s.memory at) then some s else allocate_table fuel at s) [
      | none ↦ none
      | some s' ↦ some (next_table_address s'.memory table index, s')
    ]

-- The last level: the entry is given the frame, then the flags, then its present bit.
pub write_entry : ℕ → ℕ → ℕ → Memory → Memory
write_entry at frame flags mem =
    let masked = store 8 mem at (set_addr_mask (load 8 mem at) (u32 frame)) in
    let flagged = store 8 masked at (u8 flags) in
    store 8 flagged at (set_present (load 8 flagged at))

pub map_page_to_frame : ℕ → ℕ → ℕ → ℕ → Mmu → Option Mmu
map_page_to_frame fuel page frame flags s =
    elim (next_table_create fuel p4_table (p4_index page) s) [
      | none ↦ none
      | some (p3, s3) ↦ elim (next_table_create fuel p3 (p3_index page) s3) [
        | none ↦ none
        | some (p2, s2) ↦ elim (next_table_create fuel p2 (p2_index page) s2) [
          | none ↦ none
          | some (p1, s1) ↦ some (record s1 {
            memory = write_entry (entry_address p1 (p1_index page)) frame flags s1.memory;
          })
        ]
      ]
    ]

pub identity_map : ℕ → ℕ → ℕ → Mmu → Option Mmu
identity_map fuel frame flags s =
    map_page_to_frame fuel (page_containing_address (frame_starting_address frame)) frame flags s

pub map_page : ℕ → ℕ → ℕ → Mmu → Option Mmu
map_page fuel page flags s = elim (mmap_allocate_frame fuel s.mmap) [
  | none ↦ none
  | some (frame, mmap) ↦ map_page_to_frame fuel page frame flags (record s { mmap = mmap })
]

-- A table that is missing is the null pointer, which is read as any other.
pub unmap : ℕ → Memory → Memory
unmap page mem =
    let p3 = next_table_address mem p4_table (p4_index page) in
    let p2 = next_table_address mem p3 (p3_index page) in
    let p1 = next_table_address mem p2 (p2_index page) in
    let at = entry_address p1 (p1_index page) in
    let entry = load 8 mem at in
    if not (present entry)
    then mem
    else mmap_deallocate_frame (pointed_frame entry) (store 8 mem at (clear_present entry))
