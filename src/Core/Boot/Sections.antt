-- ===== src/Core/Boot/Sections.antt =====
-- Reading the information is a fold over the list of its sections.
use utero_archive.Base.{
  ℕ, zero, suc, ◌+◌, ◌-◌, ◌^◌, ◌<◌, ◌≡◌, inl, inr, refl, ap, ◌∙◌, arith, false, ◌==◌, if◌then◌else◌,
  some, List, [], ◌∷◌, ◌++◌, length, Bool-cases, u64,
}
use utero_archive.Base.Memory.{Memory}
use utero_archive.Mmu.Mmap.{ReservedAreas}
use utero_archive.Core.Boot.{
  tag_type, tag_end, tag_elf_sections, next_tag, first_tag, sections_num, section_size,
  first_section, add_section, elf_loop, read_tag, tags_loop, read_multiboot_info,
}
use utero_archive.Core.Boot.Tags.{TagsFrom}

-- The addresses of the sections of a tag, and of all tags.
unfoldable pub section_list : ℕ → Memory → ℕ → ℕ → List ℕ
section_list zero mem tag elf = []
section_list (suc left) mem tag elf =
    elf ∷ section_list left mem tag (u64 (elf + section_size mem tag))

unfoldable pub tag_sections : Memory → ℕ → List ℕ
tag_sections mem tag =
    if tag_type mem tag == tag_elf_sections
    then section_list (sections_num mem tag) mem tag (first_section tag)
    else []

unfoldable pub all_sections : Memory → List ℕ → List ℕ
all_sections mem [] = []
all_sections mem (t ∷ ts) = tag_sections mem t ++ all_sections mem ts

unfoldable pub add_all : Memory → List ℕ → ReservedAreas → ReservedAreas
add_all mem [] r = r
add_all mem (e ∷ es) r = add_all mem es (add_section mem e r)

elf_loop-add_all :
    (left : ℕ) (mem : Memory) (tag elf : ℕ) (r : ReservedAreas)
    → elf_loop left mem tag elf r ≡ add_all mem (section_list left mem tag elf) r
unfolding elf_loop add_all section_list
elf_loop-add_all zero mem tag elf r = refl
elf_loop-add_all (suc left) mem tag elf r =
    elf_loop-add_all left mem tag (u64 (elf + section_size mem tag)) (add_section mem elf r)

read_tag-add_all :
    (mem : Memory) (tag : ℕ) (r : ReservedAreas)
    → read_tag mem tag r ≡ add_all mem (tag_sections mem tag) r
unfolding read_tag tag_sections
read_tag-add_all mem tag r = elim (Bool-cases (tag_type mem tag == tag_elf_sections)) [
  | inl yes' ↦ rw yes' (elf_loop-add_all (sections_num mem tag) mem tag (first_section tag) r)
  | inr no' ↦ rw no' (unfold add_all in refl)
]

add_all-append :
    (mem : Memory) (xs ys : List ℕ) (r : ReservedAreas)
    → add_all mem (xs ++ ys) r ≡ add_all mem ys (add_all mem xs r)
unfolding add_all
add_all-append mem [] ys r = refl
add_all-append mem (x ∷ xs) ys r = add_all-append mem xs ys (add_section mem x r)

pub tags_loop-add_all :
    (mem : Memory) (ts : List ℕ) (tag stop fuel : ℕ) (r : ReservedAreas)
    → TagsFrom mem tag ts stop
    → length ts < fuel
    → tags_loop fuel mem tag r
      ≡ some (record (add_all mem (all_sections mem ts) r) { multiboot_end = next_tag mem stop })
unfolding tags_loop all_sections
tags_loop-add_all mem ts tag stop zero r h f = absurd (omega arith)
tags_loop-add_all mem [] tag stop (suc fuel) r (e, last) f =
    unfold add_all in rw last (ap (λ a. some (record r { multiboot_end = next_tag mem a })) e)
tags_loop-add_all mem (t ∷ ts) tag stop (suc fuel) r (e, more, rest) f =
    let go_on : (tag_type mem tag == tag_end) ≡ false = ground arith in
    let later =
      tags_loop-add_all mem ts (next_tag mem tag) stop fuel (read_tag mem tag r) rest
        (omega arith) in
    rw go_on (
      later
      ∙ rw
          (
            read_tag-add_all mem tag r,
            e,
            add_all-append mem (tag_sections mem t) (all_sections mem ts) r,
          )
          refl)

abbrev pub no_areas : ℕ → ReservedAreas
no_areas mbi = record {
  kernel_start = 2 ^ 64 - 1;
  kernel_end = 0;
  multiboot_start = mbi;
  multiboot_end = 0;
}

-- The areas of the information with the tags `ts` before its end tag.
unfoldable pub areas_of : Memory → ℕ → List ℕ → ℕ → ReservedAreas
areas_of mem mbi ts stop = record (add_all mem (all_sections mem ts) (no_areas mbi)) {
  multiboot_end = next_tag mem stop;
}

pub read_multiboot_info-areas_of :
    (mem : Memory) (mbi : ℕ) (ts : List ℕ) (stop fuel : ℕ)
    → TagsFrom mem (first_tag mbi) ts stop
    → length ts < fuel
    → read_multiboot_info fuel mem mbi ≡ some (areas_of mem mbi ts stop)
unfolding read_multiboot_info areas_of
read_multiboot_info-areas_of mem mbi ts stop fuel h f =
    tags_loop-add_all mem ts (first_tag mbi) stop fuel (no_areas mbi) h f
