-- ===== src/Core/Boot/Reserved.antt =====
-- The reserved areas cover every section of the kernel, and the information itself.
use utero_archive.Base.{
  ℕ, ◌+◌, ◌-◌, ◌^◌, ◌≤◌, ◌<◌, ◌≡◌, ◌≢◌, ◌⊎◌, inl, inr, refl, ◌∙◌, arith, Option, some, List, [],
  ◌∷◌, length, u64,
}
use utero_archive.Base.Memory.{Memory}
use utero_archive.Mmu.Mmap.{ReservedAreas}
use utero_archive.Core.Boot.{
  next_tag, first_tag, section_type, section_addr, section_bytes, elf_section_null, add_section,
  read_multiboot_info,
}
use utero_archive.Core.Boot.Tags.{TagsFrom}
use utero_archive.Core.Boot.Sections.{
  all_sections, add_all, no_areas, areas_of, read_multiboot_info-areas_of,
}

-- An area covers a section that is in use.
abbrev pub CoversSection : Memory → ReservedAreas → ℕ → Type 0
CoversSection mem r e =
    section_type mem e ≢ elf_section_null
    → (r.kernel_start ≤ section_addr mem e)
      × (u64 (section_addr mem e + section_bytes mem e) ≤ r.kernel_end)

abbrev pub CoversAll : Memory → ReservedAreas → List ℕ → Type 0
CoversAll mem r [] = Unit {0}
CoversAll mem r (e ∷ es) = CoversSection mem r e × CoversAll mem r es

-- The kernel's area only grows.
record Grows (r r' : ReservedAreas) : Type 0 where
  start : r'.kernel_start ≤ r.kernel_start
  end : r.kernel_end ≤ r'.kernel_end
  multiboot : r'.multiboot_start ≡ r.multiboot_start

add_section-Grows : (mem : Memory) (e : ℕ) (r : ReservedAreas) → Grows r (add_section mem e r)
unfolding add_section
add_section-Grows mem e r = ground arith

add_all-Grows : (mem : Memory) (es : List ℕ) (r : ReservedAreas) → Grows r (add_all mem es r)
unfolding add_all
add_all-Grows mem [] r = omega arith
add_all-Grows mem (e ∷ es) r =
    let one = add_section-Grows mem e r in
    let rest = add_all-Grows mem es (add_section mem e r) in
    record {
      start = omega (arith, one.start, rest.start);
      end = omega (arith, one.end, rest.end);
      multiboot = rest.multiboot ∙ one.multiboot;
    }

add_section-CoversSection :
    (mem : Memory) (e : ℕ) (r : ReservedAreas) → CoversSection mem (add_section mem e r) e
unfolding add_section
add_section-CoversSection mem e r used = ground arith

add_all-CoversAll :
    (mem : Memory) (es : List ℕ) (r : ReservedAreas) → CoversAll mem (add_all mem es r) es
unfolding add_all
add_all-CoversAll mem [] r = tt
add_all-CoversAll mem (e ∷ es) r =
    let r1 = add_section mem e r in
    let grown = add_all-Grows mem es r1 in
    let own = add_section-CoversSection mem e r in
    (
      λ used. (omega (arith, (own used).0, grown.start), omega (arith, (own used).1, grown.end)),
      add_all-CoversAll mem es r1,
    )

-- The bounds are those of sections: each is the first one's, or some used section has it.
abbrev pub StartsAt : Memory → ℕ → List ℕ → Type 0
StartsAt mem a [] = ⊥
StartsAt mem a (e ∷ es) =
    ((section_type mem e ≢ elf_section_null) × (a ≡ section_addr mem e)) ⊎ StartsAt mem a es

abbrev pub EndsAt : Memory → ℕ → List ℕ → Type 0
EndsAt mem a [] = ⊥
EndsAt mem a (e ∷ es) =
    ((section_type mem e ≢ elf_section_null) × (a ≡ u64 (section_addr mem e + section_bytes mem e)))
    ⊎ EndsAt mem a es

section_start :
    (mem : Memory) (e : ℕ) (r : ReservedAreas)
    → ((add_section mem e r).kernel_start ≡ r.kernel_start)
      ⊎ ((section_type mem e ≢ elf_section_null)
          × ((add_section mem e r).kernel_start ≡ section_addr mem e))
unfolding add_section
section_start mem e r = ground arith

section_end :
    (mem : Memory) (e : ℕ) (r : ReservedAreas)
    → ((add_section mem e r).kernel_end ≡ r.kernel_end)
      ⊎ ((section_type mem e ≢ elf_section_null)
          × ((add_section mem e r).kernel_end ≡ u64 (section_addr mem e + section_bytes mem e)))
unfolding add_section
section_end mem e r = ground arith

add_all-StartsAt :
    (mem : Memory) (es : List ℕ) (r : ReservedAreas)
    → ((add_all mem es r).kernel_start ≡ r.kernel_start)
      ⊎ StartsAt mem (add_all mem es r).kernel_start es
unfolding add_all
add_all-StartsAt mem [] r = inl refl
add_all-StartsAt mem (e ∷ es) r = elim (add_all-StartsAt mem es (add_section mem e r)) [
  | inr later ↦ inr (inr later)
  | inl kept ↦ elim (section_start mem e r) [
    | inl same ↦ inl (kept ∙ same)
    | inr own ↦ inr (inl (own.0, kept ∙ own.1))
  ]
]

add_all-EndsAt :
    (mem : Memory) (es : List ℕ) (r : ReservedAreas)
    → ((add_all mem es r).kernel_end ≡ r.kernel_end) ⊎ EndsAt mem (add_all mem es r).kernel_end es
unfolding add_all
add_all-EndsAt mem [] r = inl refl
add_all-EndsAt mem (e ∷ es) r = elim (add_all-EndsAt mem es (add_section mem e r)) [
  | inr later ↦ inr (inr later)
  | inl kept ↦ elim (section_end mem e r) [
    | inl same ↦ inl (kept ∙ same)
    | inr own ↦ inr (inl (own.0, kept ∙ own.1))
  ]
]

-- What `read_multiboot_info` returns: the smallest area that covers all used sections of the
-- kernel, and the information's own area up to behind its last tag.
pub record Reserves (mem : Memory) (mbi : ℕ) (ts : List ℕ) (stop : ℕ)
    (result : Option ReservedAreas) : Type 0 where
  pub areas : ReservedAreas
  pub returns : result ≡ some areas
  pub covers : CoversAll mem areas (all_sections mem ts)
  pub lowest :
      (areas.kernel_start ≡ 2 ^ 64 - 1) ⊎ StartsAt mem areas.kernel_start (all_sections mem ts)
  pub highest : (areas.kernel_end ≡ 0) ⊎ EndsAt mem areas.kernel_end (all_sections mem ts)
  pub own_start : areas.multiboot_start ≡ mbi
  pub own_end : areas.multiboot_end ≡ next_tag mem stop

-- On tags that end, reading the information returns, with one unit of fuel more than there are
-- tags before the end: the kernel's area is the smallest that covers every section in use (its
-- bounds are a section's, or the initial ones), and the information's own area begins at its
-- address and ends behind the end tag.
pub read_multiboot_info-Reserves :
    (mem : Memory) (mbi : ℕ) (ts : List ℕ) (stop fuel : ℕ)
    → TagsFrom mem (first_tag mbi) ts stop
    → length ts < fuel
    → Reserves mem mbi ts stop (read_multiboot_info fuel mem mbi)
unfolding areas_of
read_multiboot_info-Reserves mem mbi ts stop fuel h f =
    let es = all_sections mem ts in
    let r0 = no_areas mbi in
    let r = add_all mem es r0 in
    record {
      areas = areas_of mem mbi ts stop;
      returns = read_multiboot_info-areas_of mem mbi ts stop fuel h f;
      covers = CoversAll-end mem r es (next_tag mem stop) (add_all-CoversAll mem es r0);
      lowest = add_all-StartsAt mem es r0;
      highest = add_all-EndsAt mem es r0;
      own_start = (add_all-Grows mem es r0).multiboot;
      own_end = refl;
    }
  where
    CoversAll-end :
        (mem : Memory) (r : ReservedAreas) (es : List ℕ) (a : ℕ)
        → CoversAll mem r es
        → CoversAll mem (record r { multiboot_end = a }) es
    CoversAll-end mem r [] a c = tt
    CoversAll-end mem r (e ∷ es) a c = (c.0, CoversAll-end mem r es a c.1)
