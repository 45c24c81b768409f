-- ===== src/Examples/Paging.antt =====
-- The theorems on the page tables at concrete inputs.
use utero_archive.Base.{ℕ, ◌+◌, ◌*◌, ◌<◌, ◌≤◌, ◌≡◌, ◌≢◌, ◌⊎◌, some, arith, refl, true}
use utero_archive.Base.Memory.{Memory, load}
use utero_archive.Mmu.Mmap.{
  page_size, mmap_read, entry_loop, chunk_loop, mmap_allocate_frame, in_reserved_area,
  frame_containing_address,
}
use utero_archive.Mmu.Paging.{
  Mmu, present, writable, pointed_frame, entry_address, next_table_address, next_table_create,
  translate_page, translate, map_page_to_frame, p4_table,
}
use utero_archive.Mmu.Paging.Window.{walk, translate_page-walk, translate_offset}
use utero_archive.Mmu.Paging.Mapping.{
  TablesReady, Mapped, map_page_to_frame-Mapped, next_table_create_absent,
}
use utero_archive.Examples.Mmu.{small}

-- Every entry is 0x0101010101010101, present and no huge page.
abbrev full : Memory
full x = 1

full-TablesReady : TablesReady full 0x12345
unfolding load
full-TablesReady = record { level4 = refl; level3 = refl; level2 = refl }

abbrev mmu : Memory → Mmu
mmu mem = record { mmap = small; memory = mem }

translate_page-walk_example : translate_page full 0x12345 ≡ walk full 0x12345
translate_page-walk_example = translate_page-walk full 0x12345

translate_offset_example :
    (translate full (0x12345 * page_size + 0x678) ≡ translate full (0x12345 * page_size))
    × (translate_page full 0x100012345 ≡ translate_page full 0x12345)
translate_offset_example = translate_offset full 0x12345 0x678 0x100012345 (omega arith) refl

map_page_to_frame-Mapped_example :
    Mapped 0x12345 3 (mmu full) (map_page_to_frame 9 0x12345 7 3 (mmu full))
map_page_to_frame-Mapped_example =
    map_page_to_frame-Mapped 9 0x12345 7 3 (mmu full) full-TablesReady

abbrev blank : Memory
blank x = 0

next_table_create_absent_example :
    let at = entry_address p4_table 5 in
    (s' : Mmu) × (next_table_create 9 p4_table 5 (mmu blank)
      ≡ some (next_table_address s'.memory p4_table 5, s'))
    × (s'.mmap ≡ record small { next_free_frame = 6 })
    × (present (load 8 s'.memory at) ≡ true)
    × (writable (load 8 s'.memory at) ≡ true)
    × (pointed_frame (load 8 s'.memory at) ≡ 0x11000)
    × (◌≢◌ {A = ℕ} 0x11000 0
        → pointed_frame (load 8 s'.memory at) ≢ frame_containing_address 0x11000)
    × ((x : ℕ) → (x < at) ⊎ (at + 8 ≤ x) → s'.memory x ≡ 0)
unfolding mmap_allocate_frame mmap_read entry_loop chunk_loop in_reserved_area load
next_table_create_absent_example =
    next_table_create_absent 9 p4_table 5 5 0x11000 (mmu blank)
      (record small { next_free_frame = 6 }) refl refl refl (omega arith)
