-- ===== src/Mmu/Paging/Huge.antt =====
-- A page whose entry of the second level is for a huge page (src/mmu/paging.c), which the functions do
-- not follow.
use utero_archive.Base.{ℕ, ◌*◌, ◌%◌, ◌≡◌, refl, ◌∙◌, arith, true, false, some, u32}
use utero_archive.Base.Memory.{Memory, load}
use utero_archive.Mmu.Paging.{
  Mmu, p4_table, p4_index, p3_index, p2_index, p1_index, present, huge_page, entry_address,
  translate_page, write_entry, map_page_to_frame,
}
use utero_archive.Mmu.Paging.Window.{
  p4_entry, p3_entry, p2_entry, leads_on, table3, table2, next_table3, next_table2, next_table1,
  p4_entry_address, p3_entry_address, p2_entry_address, walk, translate_page-walk, p1_index_lem,
}
use utero_archive.Mmu.Paging.Mapping.{leads_on-present, create_present}

pub record IsHuge (mem : Memory) (page : ℕ) : Type 0 where
  pub level4 : leads_on mem (p4_entry page) ≡ true
  pub level3 : leads_on mem (p3_entry page) ≡ true
  pub there : present (load 8 mem (p2_entry page)) ≡ true
  pub huge : huge_page (load 8 mem (p2_entry page)) ≡ true

module _ (page : ℕ) (mem : Memory) (h : IsHuge mem page) where
  pub IsHuge-end : leads_on mem (p2_entry page) ≡ false
  IsHuge-end = rw (h.there, h.huge) refl

  pub translate_page-IsHuge : translate_page mem page ≡ 0
  unfolding walk
  translate_page-IsHuge = translate_page-walk mem page ∙ rw (h.level4, h.level3, IsHuge-end) refl

-- The last level's table is the null pointer, and the entry is written to the start of memory.
pub map_page_to_frame-IsHuge :
    (fuel page frame flags : ℕ) (s : Mmu)
    → IsHuge s.memory page
    → map_page_to_frame fuel page frame flags s
      ≡ some (record s { memory = write_entry (8 * (u32 page % 512)) frame flags s.memory })
unfolding map_page_to_frame
map_page_to_frame-IsHuge fuel page frame flags s h =
    let mem = s.memory in
    let at : entry_address 0 (p1_index page) ≡ 8 * (u32 page % 512) =
      rw (p1_index_lem page) (omega arith) in
    rw
      (
        create_present fuel p4_table (p4_index page) (p4_entry page) (table3 page) s
            (p4_entry_address page) (leads_on-present mem (p4_entry page) h.level4)
            (next_table3 mem page ∙ rw h.level4 refl),
        create_present fuel (table3 page) (p3_index page) (p3_entry page) (table2 page) s
            (p3_entry_address page) (leads_on-present mem (p3_entry page) h.level3)
            (next_table2 mem page ∙ rw h.level3 refl),
        create_present fuel (table2 page) (p2_index page) (p2_entry page) 0 s
            (p2_entry_address page) h.there
            (next_table1 mem page ∙ rw (IsHuge-end page mem h) refl),
        at,
        map_page_to_frame,
      )
      refl
