-- ===== src/Asm/Boot/Seen.antt =====
-- The kernel's functions for page tables (src/mmu/paging.c) on the tables that the start leaves, with
-- memory as the processor shows it through them.
use utero_archive.Base.{
  ℕ, zero, suc, ◌+◌, ◌*◌, ◌/◌, ◌%◌, ◌^◌, ◌≤◌, ◌<◌, ◌≡◌, refl, sym, ap, ◌∙◌, subst, arith, some,
  none, u32, u64,
}
use mathlib.Core.Option.{some-injective}
use utero_archive.Base.Memory.{Memory, load}
use utero_archive.Mmu.Paging.{Mmu, p4_table, translate_page, write_entry, map_page_to_frame}
use utero_archive.Mmu.Paging.Window.{p4_entry, p3_entry, p2_entry}
use utero_archive.Mmu.Paging.Huge.{IsHuge, translate_page-IsHuge, map_page_to_frame-IsHuge}
use utero_archive.Asm.Boot.{p3_table, p2_table, set_up_page_tables}
use utero_archive.Asm.Boot.Walk.{cpu_walk, Tables}
use utero_archive.Asm.Boot.Identity.{
  present_link, huge_page_link, present_huge, huge_page_huge, cpu_walk_identity, cpu_walk_window,
}
use utero_archive.Asm.Boot.Tables.{IsRoom, set_up_page_tables-SetUp}

-- What a pointer reads; an address that is not translated has no byte, here 0.
unfoldable pub seen : Memory → ℕ → Memory
seen mem p4 v = elim (cpu_walk mem p4 v) [ none ↦ 0 | some a ↦ mem a ]

load_shift :
    (n : ℕ) (mem mem' : Memory) (a b : ℕ)
    → ((j : ℕ) → j < n → mem (a + j) ≡ mem' (b + j))
    → load n mem a ≡ load n mem' b
unfolding load
load_shift zero mem mem' a b h = refl
load_shift (suc n) mem mem' a b h =
    let first : mem a ≡ mem' b = ap mem (omega arith) ∙ h 0 (omega arith) ∙ ap mem' (omega arith) in
    let rest =
      load_shift n mem mem' (a + 1) (b + 1)
        (λ j hi. ap mem (omega arith) ∙ h (j + 1) (omega arith) ∙ ap mem' (omega arith)) in
    rw (rest, first) refl

load-seen :
    (mem : Memory) (p4 v a : ℕ)
    → ((j : ℕ) → j < 8 → cpu_walk mem p4 (v + j) ≡ some (a + j))
    → load 8 (seen mem p4) v ≡ load 8 mem a
unfolding seen
load-seen mem p4 v a h = load_shift 8 (seen mem p4) mem v a (λ j hi. rw (h j hi, seen) refl)

module _ (p4 : ℕ) (before mem : Memory) (aligned : p4 % 4096 ≡ 0) (room : p4 + 12288 ≤ 2 ^ 32)
    (t : Tables p4 before mem) where
  seen-IsHuge : (page : ℕ) → page < 2 ^ 18 → IsHuge (seen mem p4) page
  seen-IsHuge page low =
      let window = cpu_walk_window p4 before mem aligned room t in
      let entry = u32 page / 2 ^ 9 in
      let e4 : load 8 (seen mem p4) (p4_entry page) ≡ p3_table p4 + 3 =
        ap (load 8 (seen mem p4)) (omega arith)
        ∙ load-seen mem p4 p4_table p4 (λ j hi. (window j (omega arith)).0)
        ∙ t.first in
      let e3 : load 8 (seen mem p4) (p3_entry page) ≡ p2_table p4 + 3 =
        ap (load 8 (seen mem p4)) (omega arith)
        ∙ load-seen mem p4 (u64 (p4_table * 2 ^ 9)) (p3_table p4)
            (λ j hi. (window j (omega arith)).1)
        ∙ t.only in
      let base = u64 (u64 (p4_table * 2 ^ 9) * 2 ^ 9) in
      let e2 : load 8 (seen mem p4) (p2_entry page) ≡ 0x200000 * entry + 131 =
        load-seen mem p4 (p2_entry page) (p2_table p4 + 8 * entry) (λ j hi.
          ap (cpu_walk mem p4) (omega arith)
          ∙ (window (8 * entry + j) (omega arith)).2
          ∙ ap some (omega arith))
        ∙ t.huge entry (omega arith) in
      record {
        level4 =
            rw
              (
                e4,
                present_link (p3_table p4) (omega arith),
                huge_page_link (p3_table p4) (omega arith),
              )
              refl;
        level3 =
            rw
              (
                e3,
                present_link (p2_table p4) (omega arith),
                huge_page_link (p2_table p4) (omega arith),
              )
              refl;
        there = rw e2 (present_huge entry);
        huge = rw e2 (huge_page_huge entry);
      }

  seen_page :
      (page frame flags fuel offset : ℕ) (s : Mmu)
      → page < 2 ^ 18
      → offset < 4096
      → s.memory ≡ seen mem p4
      → (cpu_walk mem p4 (page * 4096 + offset) ≡ some (page * 4096 + offset))
        × (translate_page s.memory page ≡ 0)
        × (map_page_to_frame fuel page frame flags s
            ≡ some (record s { memory = write_entry (8 * (page % 512)) frame flags s.memory }))
  seen_page page frame flags fuel offset s low inside same =
      let h : IsHuge s.memory page = rw same (seen-IsHuge page low) in
      let whole : u32 page ≡ page = omega arith in
      (
        cpu_walk_identity p4 before mem aligned room t (page * 4096 + offset) (omega arith),
        translate_page-IsHuge page s.memory h,
        map_page_to_frame-IsHuge fuel page frame flags s h
            ∙ ap
                (λ x. some (record s { memory = write_entry (8 * (x % 512)) frame flags s.memory }))
                whole,
      )

-- On the tables of the start, seen through themselves, each page below 1 GiB is mapped to itself,
-- but translate_page answers 0 for it, and map_page_to_frame allocates nothing and writes the new
-- entry into the first 4096 bytes of memory, at eight times the page's lowest index.
pub translate_page-seen :
    (rounds p4 : ℕ) (before mem : Memory) (page frame flags fuel offset : ℕ) (s : Mmu)
    → 512 ≤ rounds
    → IsRoom p4 before
    → set_up_page_tables rounds p4 before ≡ some mem
    → page < 2 ^ 18
    → offset < 4096
    → s.memory ≡ seen mem p4
    → (cpu_walk mem p4 (page * 4096 + offset) ≡ some (page * 4096 + offset))
      × (translate_page s.memory page ≡ 0)
      × (map_page_to_frame fuel page frame flags s
          ≡ some (record s { memory = write_entry (8 * (page % 512)) frame flags s.memory }))
translate_page-seen rounds p4 before mem page frame flags fuel offset s enough ok set low inside
      same =
    let u = set_up_page_tables-SetUp rounds p4 before enough ok in
    let mems : u.mem ≡ mem = some-injective _ _ (sym u.returns ∙ set) in
    seen_page p4 before mem ok.aligned ok.room (subst (Tables p4 before) mems u.tables) page frame
      flags fuel offset s low inside same
