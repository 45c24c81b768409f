-- ===== src/Mmu/Paging/Mapping.antt =====
-- Mapping and unmapping a page whose tables are there.
use utero_archive.Base.{
  ℕ, ◌+◌, ◌-◌, ◌*◌, ◌^◌, ◌≤◌, ◌<◌, ◌≡◌, ◌≢◌, refl, ◌∙◌, sym, true, false, ◌&&◌, not, arith, ltb,
  leb, if◌then◌else◌, u8, u32, Bool-cases, inl, inr, ◌⊎◌, Option, some,
}
use utero_archive.Base.Memory.{Memory, load, store, load_cong, load-lt, load-store, store_outside}
use native.Mathlib.Nat.{mod-eq_of_lt}
use utero_archive.Mmu.Mmap.{
  Mmap, get_addr, mmap_allocate_frame, mmap_read, frame_containing_address, page_size,
  frame_starting_address,
}
use utero_archive.Mmu.Mmap.Limits.{mmap_deallocate_frame_lem}
use utero_archive.Mmu.Paging.{
  Mmu, p4_table, p4_index, p3_index, p2_index, present, writable, set_present, entry_address,
  pointed_frame, translate_page, next_table_address, next_table_create, write_entry,
  map_page_to_frame, unmap, fresh_entry, allocate_table,
}
use utero_archive.Mmu.Paging.Window.{
  p4_entry, p3_entry, p2_entry, p1_entry, table3, table2, table1, leads_on, next_table3,
  next_table2, next_table1, p4_entry_address, p3_entry_address, p2_entry_address, last_entry, walk,
  translate_page-walk,
}
use utero_archive.Mmu.Paging.Entries.{
  fresh_entry_misplaced, fresh_entry-lt, pointed_frame_lem, write_entry_lem, write_entry_outside,
}

-- The three tables above a page's entry are there.
pub record TablesReady (mem : Memory) (page : ℕ) : Type 0 where
  pub level4 : leads_on mem (p4_entry page) ≡ true
  pub level3 : leads_on mem (p3_entry page) ≡ true
  pub level2 : leads_on mem (p2_entry page) ≡ true

pub leads_on-present :
    (mem : Memory) (at : ℕ) → leads_on mem at ≡ true → present (load 8 mem at) ≡ true
leads_on-present mem at h = ground arith

-- A present entry needs no new table.
pub create_present :
    (fuel table index at next : ℕ) (s : Mmu)
    → entry_address table index ≡ at
    → present (load 8 s.memory at) ≡ true
    → next_table_address s.memory table index ≡ next
    → next_table_create fuel table index s ≡ some (next, s)
unfolding next_table_create
create_present fuel table index at next s a on n = rw (a, on, n, next_table_create) refl

create_ready :
    (fuel table index at next : ℕ) (s : Mmu)
    → entry_address table index ≡ at
    → leads_on s.memory at ≡ true
    → next_table_address s.memory table index ≡ next
    → next_table_create fuel table index s ≡ some (next, s)
create_ready fuel table index at next s a on n =
    create_present fuel table index at next s a (leads_on-present s.memory at on) n

module _ (page : ℕ) (mem : Memory) (ready : TablesReady mem page) where
  to_table3 : next_table_address mem p4_table (p4_index page) ≡ table3 page
  to_table3 = next_table3 mem page ∙ rw ready.level4 refl

  to_table2 : next_table_address mem (table3 page) (p3_index page) ≡ table2 page
  to_table2 = next_table2 mem page ∙ rw ready.level3 refl

  to_table1 : next_table_address mem (table2 page) (p2_index page) ≡ table1 page
  to_table1 = next_table1 mem page ∙ rw ready.level2 refl

map_ready :
    (fuel page frame flags : ℕ) (s : Mmu)
    → TablesReady s.memory page
    → map_page_to_frame fuel page frame flags s
      ≡ some (record s { memory = write_entry (p1_entry page) frame flags s.memory })
unfolding map_page_to_frame
map_ready fuel page frame flags s r =
    rw
      (
        create_ready fuel p4_table (p4_index page) (p4_entry page) (table3 page) s
            (p4_entry_address page) r.level4 (to_table3 page s.memory r),
        create_ready fuel (table3 page) (p3_index page) (p3_entry page) (table2 page) s
            (p3_entry_address page) r.level3 (to_table2 page s.memory r),
        create_ready fuel (table2 page) (p2_index page) (p2_entry page) (table1 page) s
            (p2_entry_address page) r.level2 (to_table1 page s.memory r),
        last_entry page,
        map_page_to_frame,
      )
      refl

-- What a page translates to when only the bytes of one page's entry have changed.
module _ (page other : ℕ) (mem mem' : Memory)
    (outside : (x : ℕ) → (x < p1_entry page) ⊎ (p1_entry page + 8 ≤ x) → mem' x ≡ mem x) where
  same_word :
      (at : ℕ)
      → (at + 8 ≤ p1_entry page) ⊎ (p1_entry page + 8 ≤ at)
      → load 8 mem' at ≡ load 8 mem at
  same_word at h = load_cong 8 mem' mem at (λ x lo hi. outside x (omega arith))

  walk_other : u32 other ≢ u32 page → walk mem' other ≡ walk mem other
  unfolding walk
  walk_other ne =
      rw
        (
          same_word (p4_entry other) (inr (omega arith)),
          same_word (p3_entry other) (inr (omega arith)),
          same_word (p2_entry other) (inr (omega arith)),
          same_word (p1_entry other) (omega arith),
        )
        refl

  walk_self : TablesReady mem page → walk mem' page ≡ pointed_frame (load 8 mem' (p1_entry page))
  unfolding walk
  walk_self r =
      rw
        (
          same_word (p4_entry page) (inr (omega arith)),
          same_word (p3_entry page) (inr (omega arith)),
          same_word (p2_entry page) (inr (omega arith)),
          r.level4,
          r.level3,
          r.level2,
        )
        refl

-- What mapping a page leaves: its entry holds the flags and the present bit and nothing else, so
-- that the page translates to frame 0; the other pages translate as before.
pub record Mapped (page flags : ℕ) (s : Mmu) (result : Option Mmu) : Type 0 where
  pub after : Mmu
  pub returns : result ≡ some after
  pub entry : load 8 after.memory (p1_entry page) ≡ set_present (u8 flags)
  pub allocator : after.mmap ≡ s.mmap
  pub target : translate_page after.memory page ≡ 0
  pub others :
      (other : ℕ)
      → u32 other ≢ u32 page
      → translate_page after.memory other ≡ translate_page s.memory other
  pub outside :
      (x : ℕ) → (x < p1_entry page) ⊎ (p1_entry page + 8 ≤ x) → after.memory x ≡ s.memory x

-- Mapping a page whose tables are there returns, whatever frame it is mapped to and whatever its
-- entry was: the flags overwrite the frame, the page translates to frame 0, and no page with
-- another number in 32 bits changes.
pub map_page_to_frame-Mapped :
    (fuel page frame flags : ℕ) (s : Mmu)
    → TablesReady s.memory page
    → Mapped page flags s (map_page_to_frame fuel page frame flags s)
map_page_to_frame-Mapped fuel page frame flags s r =
    let at = p1_entry page in
    let mem = write_entry at frame flags s.memory in
    let out = write_entry_outside at frame flags s.memory in
    let word = write_entry_lem at frame flags s.memory in
    record {
      after = record s { memory = mem };
      returns = map_ready fuel page frame flags s r;
      entry = word;
      allocator = refl;
      target =
          translate_page-walk mem page
          ∙ walk_self page page s.memory mem out r
          ∙ pointed_frame_lem (load 8 mem at)
          ∙ rw word (ground arith);
      others = λ other ne.
          translate_page-walk mem other
          ∙ walk_other page other s.memory mem out ne
          ∙ sym (translate_page-walk s.memory other);
      outside = out;
    }

-- Unmapping a page whose tables are there: nothing changes where it is not present. Where it is,
-- its entry is no longer present, and the eight pages from its frame's address on are cleared.
pub unmap_lem :
    (page : ℕ) (mem : Memory) (x : ℕ)
    → TablesReady mem page
    → let at = p1_entry page in
      let entry = load 8 mem at in
      let start = frame_starting_address (pointed_frame entry) in
      unmap page mem x ≡ (
        if not (present entry)
        then mem x
        else if leb start x && ltb x (start + 8 * page_size)
        then 0
        else store 8 mem at (entry - 1) x)
unfolding unmap
unmap_lem page mem x r =
    let at = p1_entry page in
    let entry = load 8 mem at in
    rw (to_table3 page mem r, to_table2 page mem r, to_table1 page mem r, last_entry page)
      (elim (Bool-cases (present entry)) [
        | inl on ↦
            rw on (mmap_deallocate_frame_lem (pointed_frame entry) (store 8 mem at (entry - 1)) x)
        | inr off ↦ rw off refl
      ])

-- A table that is missing is allocated, and its entry points to the wrong frame: with the frame's
-- address below 4 GiB, the entry becomes present and writable and points to the frame whose number
-- is that address, which is another one than the frame that was allocated unless the address is 0.
-- No byte outside the entry changes.
pub next_table_create_absent :
    (fuel table index frame addr : ℕ) (s : Mmu) (mmap : Mmap)
    → present (load 8 s.memory (entry_address table index)) ≡ false
    → mmap_allocate_frame fuel s.mmap ≡ some (frame, mmap)
    → mmap_read mmap.memory_area frame get_addr ≡ some addr
    → addr < 2 ^ 32
    → let at = entry_address table index in
      (s' : Mmu) × (next_table_create fuel table index s
        ≡ some (next_table_address s'.memory table index, s'))
      × (s'.mmap ≡ mmap)
      × (present (load 8 s'.memory at) ≡ true)
      × (writable (load 8 s'.memory at) ≡ true)
      × (pointed_frame (load 8 s'.memory at) ≡ addr)
      × (addr ≢ 0 → pointed_frame (load 8 s'.memory at) ≢ frame_containing_address addr)
      × ((x : ℕ) → (x < at) ⊎ (at + 8 ≤ x) → s'.memory x ≡ s.memory x)
unfolding next_table_create allocate_table
next_table_create_absent fuel table index frame addr s mmap off allocated read small =
    let at = entry_address table index in
    let word = fresh_entry (load 8 s.memory at) addr in
    let mem = store 8 s.memory at word in
    let (on, write, points, wrong) = fresh_entry_misplaced (load 8 s.memory at) addr small in
    let fits : load 8 mem at ≡ word =
      load-store 8 s.memory at word
      ∙ mod-eq_of_lt (fresh_entry-lt (load 8 s.memory at) addr small (load-lt 8 s.memory at)) in
    (
      record { mmap = mmap; memory = mem },
      rw (off, allocated, read, next_table_create, allocate_table) refl,
      refl,
      rw fits on,
      rw fits write,
      rw fits points,
      λ ne. rw fits (wrong ne),
      λ x h. store_outside 8 s.memory at word x h,
    )
