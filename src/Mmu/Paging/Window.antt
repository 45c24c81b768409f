-- ===== src/Mmu/Paging/Window.antt =====
-- Where the recursive window puts the tables: the entry of each page at each level has an address
-- of its own, in closed form.
use utero_archive.Base.{
  ℕ, ◌+◌, ◌*◌, ◌/◌, ◌%◌, ◌^◌, ◌<◌, ◌≡◌, refl, ◌∙◌, ap, sym, Bool, false, ◌&&◌, not, arith, ◌==◌,
  if◌then◌else◌, u32, u64, Bool-cases, inl, inr,
}
use utero_archive.Base.Bits.{and_low, or_low}
use utero_archive.Base.Memory.{Memory, load}
use utero_archive.Mmu.Paging.{
  p4_table, p4_index, p3_index, p2_index, p1_index, present, huge_page, entry_address,
  next_table_address, pointed_frame, translate_page, translate, page_containing_address,
}
use utero_archive.Mmu.Mmap.{page_size}

p4_index_lem : (page : ℕ) → p4_index page ≡ u32 page / 2 ^ 27
unfolding p4_index
p4_index_lem page = omega (arith, and_low 9 (u32 page / 2 ^ 27))

p3_index_lem : (page : ℕ) → p3_index page ≡ u32 page / 2 ^ 18 % 2 ^ 9
unfolding p3_index
p3_index_lem page = and_low 9 (u32 page / 2 ^ 18)

p2_index_lem : (page : ℕ) → p2_index page ≡ u32 page / 2 ^ 9 % 2 ^ 9
unfolding p2_index
p2_index_lem page = and_low 9 (u32 page / 2 ^ 9)

pub p1_index_lem : (page : ℕ) → p1_index page ≡ u32 page % 2 ^ 9
unfolding p1_index
p1_index_lem page = and_low 9 (u32 page)

-- The addresses of a page's entries at the four levels.
abbrev pub p4_entry : ℕ → ℕ
p4_entry page = 0xfffffffffffff000 + 8 * (u32 page / 2 ^ 27)

abbrev pub p3_entry : ℕ → ℕ
p3_entry page = 0xffffffffffe00000 + 8 * (u32 page / 2 ^ 18)

abbrev pub p2_entry : ℕ → ℕ
p2_entry page = 0xffffffffc0000000 + 8 * (u32 page / 2 ^ 9)

abbrev pub p1_entry : ℕ → ℕ
p1_entry page = 0xffffff8000000000 + 8 * u32 page

-- An entry that leads to a table.
abbrev pub leads_on : Memory → ℕ → Bool
leads_on mem at = present (load 8 mem at) && not (huge_page (load 8 mem at))

-- A step through the window: the address moves up by nine bits, with the index behind it.
pub window_step :
    (mem : Memory) (table index q : ℕ)
    → index < 512
    → table + 8 * index < 2 ^ 64
    → u64 (table * 2 ^ 9) ≡ q * 2 ^ 21
    → next_table_address mem table index
      ≡ (if leads_on mem (table + 8 * index) then q * 2 ^ 21 + index * 2 ^ 12 else 0)
unfolding next_table_address
window_step mem table index q small fits moved =
    let same : u32 index ≡ index = omega arith in
    let at : u64 (table + 8 * index) ≡ table + 8 * index = omega arith in
    let short : u32 (index * 2 ^ 12) ≡ index * 2 ^ 12 = omega arith in
    rw (same, at, moved, short, or_low 21 q (index * 2 ^ 12) (omega arith)) refl

abbrev pub table3 : ℕ → ℕ
table3 page = 0xffffffffffe00000 + (u32 page / 2 ^ 27) * 2 ^ 12

abbrev pub table2 : ℕ → ℕ
table2 page = 0xffffffffc0000000 + (u32 page / 2 ^ 18) * 2 ^ 12

abbrev pub table1 : ℕ → ℕ
table1 page = 0xffffff8000000000 + (u32 page / 2 ^ 9) * 2 ^ 12

pub next_table3 :
    (mem : Memory) (page : ℕ)
    → next_table_address mem p4_table (p4_index page)
      ≡ (if leads_on mem (p4_entry page) then table3 page else 0)
next_table3 mem page =
    let n = u32 page / 2 ^ 27 in
    rw (p4_index_lem page) (
      window_step mem p4_table n 0x7ffffffffff (omega arith) (omega arith) refl
      ∙ ap (λ t. if leads_on mem (p4_entry page) then t else 0) (omega arith))

pub next_table2 :
    (mem : Memory) (page : ℕ)
    → next_table_address mem (table3 page) (p3_index page)
      ≡ (if leads_on mem (p3_entry page) then table2 page else 0)
next_table2 mem page =
    let i = u32 page / 2 ^ 18 % 2 ^ 9 in
    let at : table3 page + 8 * i ≡ p3_entry page = omega arith in
    rw (p3_index_lem page) (
      window_step mem (table3 page) i (0x7fffffffe00 + u32 page / 2 ^ 27) (omega arith)
        (omega arith) (omega arith)
      ∙ rw at (ap (λ t. if leads_on mem (p3_entry page) then t else 0) (omega arith)))

pub next_table1 :
    (mem : Memory) (page : ℕ)
    → next_table_address mem (table2 page) (p2_index page)
      ≡ (if leads_on mem (p2_entry page) then table1 page else 0)
next_table1 mem page =
    let i = u32 page / 2 ^ 9 % 2 ^ 9 in
    let at : table2 page + 8 * i ≡ p2_entry page = omega arith in
    rw (p2_index_lem page) (
      window_step mem (table2 page) i (0x7fffffc0000 + u32 page / 2 ^ 18) (omega arith)
        (omega arith) (omega arith)
      ∙ rw at (ap (λ t. if leads_on mem (p2_entry page) then t else 0) (omega arith)))

pub p4_entry_address : (page : ℕ) → entry_address p4_table (p4_index page) ≡ p4_entry page
p4_entry_address page = rw (p4_index_lem page) (omega arith)

pub p3_entry_address : (page : ℕ) → entry_address (table3 page) (p3_index page) ≡ p3_entry page
p3_entry_address page = rw (p3_index_lem page) (omega arith)

pub p2_entry_address : (page : ℕ) → entry_address (table2 page) (p2_index page) ≡ p2_entry page
p2_entry_address page = rw (p2_index_lem page) (omega arith)

pub last_entry : (page : ℕ) → entry_address (table1 page) (p1_index page) ≡ p1_entry page
last_entry page = rw (p1_index_lem page) (omega arith)

-- The walk of the four levels over the closed forms.
unfoldable pub walk : Memory → ℕ → ℕ
walk mem page =
    if leads_on mem (p4_entry page)
      && (leads_on mem (p3_entry page) && leads_on mem (p2_entry page))
    then pointed_frame (load 8 mem (p1_entry page))
    else 0

-- The translation of a page is the walk of four entries whose addresses are those of four linear
-- arrays, indexed by the page's number, 32 bits of it, without its lowest 27, 18, 9 and 0 bits:
-- the frame of the last entry where the first three lead on, and 0 where one does not.
pub translate_page-walk : (mem : Memory) (page : ℕ) → translate_page mem page ≡ walk mem page
unfolding translate_page walk
translate_page-walk mem page = elim (Bool-cases (leads_on mem (p4_entry page))) [
  | inr no3 ↦ rw (next_table3 mem page, no3) refl
  | inl on3 ↦
      let some3 : (table3 page == 0) ≡ false = ground arith in
      elim (Bool-cases (leads_on mem (p3_entry page))) [
        | inr no2 ↦ rw (next_table3 mem page, on3, some3, next_table2 mem page, no2) refl
        | inl on2 ↦
            let some2 : (table2 page == 0) ≡ false = ground arith in
            elim (Bool-cases (leads_on mem (p2_entry page))) [
              | inr no1 ↦
                  rw
                    (
                      next_table3 mem page,
                      on3,
                      some3,
                      next_table2 mem page,
                      on2,
                      some2,
                      next_table1 mem page,
                      no1,
                    )
                    refl
              | inl on1 ↦
                  let some1 : (table1 page == 0) ≡ false = ground arith in
                  rw
                    (
                      next_table3 mem page,
                      on3,
                      some3,
                      next_table2 mem page,
                      on2,
                      some2,
                      next_table1 mem page,
                      on1,
                      some1,
                      last_entry page,
                    )
                    refl
            ]
      ]
]

-- The offset is taken of the page's number and not of the address: all addresses of a page are
-- translated to one, and two pages that agree in 32 bits of their numbers have one frame.
pub translate_offset :
    (mem : Memory) (page offset other : ℕ)
    → offset < page_size
    → u32 other ≡ u32 page
    → (translate mem (page * page_size + offset) ≡ translate mem (page * page_size))
      × (translate_page mem other ≡ translate_page mem page)
unfolding translate page_containing_address
translate_offset mem page offset other h same =
    let at : (page * page_size + offset) / page_size ≡ page = omega arith in
    let start : page * page_size / page_size ≡ page = omega arith in
    (
      rw (at, start) refl,
      translate_page-walk mem other
          ∙ unfold walk in rw same refl ∙ sym (translate_page-walk mem page),
    )
