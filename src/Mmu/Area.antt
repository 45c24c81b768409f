-- ===== src/Mmu/Area.antt =====
-- The memory map in the boot loader's tag (multiboot_tag_mmap_t), as the pointer loop of
-- src/mmu/mmap.c meets its entries, and the start of the memory management (src/mmu/mmu.c).
pub mod Entries
pub mod Away
use utero_archive.Base.{
  ℕ, zero, suc, ◌+◌, ◌^◌, Option, none, some, List, [], ◌∷◌, ltb, if◌then◌else◌, u64,
}
use utero_archive.Base.Memory.{Memory, load}
use utero_archive.Mmu.Mmap.{MmapEntry, ReservedAreas, Mmap, mmap_init}

abbrev pub area_size : Memory → ℕ → ℕ
area_size mem tag = load 4 mem (tag + 4)

abbrev pub area_entry_size : Memory → ℕ → ℕ
area_entry_size mem tag = load 4 mem (tag + 8)

abbrev pub first_entry : ℕ → ℕ
first_entry tag = tag + 16

abbrev pub entry_at : Memory → ℕ → MmapEntry
entry_at mem entry = record {
  addr = load 8 mem entry;
  len = load 8 mem (entry + 8);
  type = load 4 mem (entry + 16);
}

abbrev pub cons_entry : MmapEntry → Option (List MmapEntry) → Option (List MmapEntry)
cons_entry e none = none
cons_entry e (some es) = some (e ∷ es)

-- The fuel bounds the entries; a size of 0 goes on without end.
pub entries_from : ℕ → Memory → ℕ → ℕ → Option (List MmapEntry)
entries_from zero mem tag entry = none
entries_from (suc fuel) mem tag entry =
    let rest = entries_from fuel mem tag (u64 (entry + area_entry_size mem tag)) in
    if ltb entry (tag + area_size mem tag) then cons_entry (entry_at mem entry) rest else some []

pub memory_area : ℕ → Memory → ℕ → Option (List MmapEntry)
memory_area fuel mem tag = entries_from fuel mem tag (first_entry tag)

unfoldable pub paging_init : Mmap → Mmap
paging_init m = m

unfoldable pub mmu_init : List MmapEntry → ReservedAreas → Mmap
mmu_init mmap reserved = paging_init (mmap_init mmap reserved)
