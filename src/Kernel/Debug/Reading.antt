-- ===== src/Kernel/Debug/Reading.antt =====
-- `read_multiboot_info` of src/core/boot.c in the build with ENABLE_KERNEL_DEBUG. `at` is what the
-- build makes of the place of a message that starts at a line.
use utero_archive.Base.{ℕ, zero, suc, ◌+◌, ◌==◌, ltb, if◌then◌else◌, Option, some, none, u64}
use utero_archive.Base.Memory.{Memory}
use utero_archive.Core.Boot.{
  tag_type, tag_size, tag_end, tag_mmap, tag_elf_sections, next_tag, first_tag, sections_num,
  section_size, first_section, add_section,
}
use utero_archive.Core.Boot.Sections.{no_areas}
use utero_archive.Mmu.Mmap.{ReservedAreas}
use utero_archive.Mmu.Area.{area_entry_size, first_entry}
use utero_archive.Drivers.Screen.{Screen}
use utero_archive.Kernel.State.{Location}
use utero_archive.Kernel.Debug.{debug}
use utero_archive.Kernel.Debug.Tags.{
  Message, tag_message, entry_message, section_message, announced, total,
}

-- A step behind another that may have no result.
abbrev pub and_next : {A B : Type 0} → Option A → (A → Option B) → Option B
and_next none f = none
and_next (some a) f = f a

abbrev pub with_areas : ReservedAreas → Option Screen → Option (ReservedAreas × Screen)
with_areas r o = and_next o (λ s. some (r, s))

module _ (waits : ℕ) (at : ℕ → Location) where
  unfoldable pub say : Message → Screen → Option Screen
  say m s = debug waits (at m.line) m.format m.args s

  unfoldable pub say_given : Option Message → Screen → Option Screen
  say_given none s = none
  say_given (some m) s = say m s

  -- The loop over the entries of a memory map.
  unfoldable pub entries_told : ℕ → Memory → ℕ → ℕ → Screen → Option Screen
  entries_told zero mem tag mmap s = none
  entries_told (suc fuel) mem tag mmap s =
      let rest =
        λ (s' : Screen). entries_told fuel mem tag (u64 (mmap + area_entry_size mem tag)) s' in
      if ltb mmap (tag + tag_size mem tag)
      then and_next (say (entry_message mem mmap) s) rest
      else some s

  -- The loop over the sections, which tells each before it counts it.
  unfoldable pub sections_told :
      ℕ → ℕ → Memory → ℕ → ℕ → ReservedAreas → Screen → Option (ReservedAreas × Screen)
  sections_told zero i mem tag elf r s = some (r, s)
  sections_told (suc left) i mem tag elf r s = and_next (say (section_message mem i elf) s) (λ s'.
      sections_told left (i + 1) mem tag (u64 (elf + section_size mem tag)) (add_section mem elf r)
        s')

  unfoldable pub read_tag_told :
      ℕ → Memory → ℕ → ReservedAreas → Screen → Option (ReservedAreas × Screen)
  read_tag_told fuel mem tag r s =
      if tag_type mem tag == tag_mmap
      then with_areas r (entries_told fuel mem tag (first_entry tag) s)
      else if tag_type mem tag == tag_elf_sections
      then sections_told (sections_num mem tag) 0 mem tag (first_section tag) r s
      else with_areas r (say_given (tag_message fuel mem tag) s)

  -- `room` bounds the loop over a map's entries and the length of a text.
  unfoldable pub tags_told :
      ℕ → ℕ → Memory → ℕ → ReservedAreas → Screen → Option (ReservedAreas × Screen)
  tags_told zero room mem tag r s = none
  tags_told (suc fuel) room mem tag r s =
      let rest =
        λ (p : ReservedAreas × Screen). tags_told fuel room mem (next_tag mem tag) p.0 p.1 in
      if tag_type mem tag == tag_end
      then some (record r { multiboot_end = next_tag mem tag }, s)
      else and_next (read_tag_told room mem tag r s) rest

  unfoldable pub read_multiboot_info_told :
      ℕ → ℕ → Memory → ℕ → Screen → Option (ReservedAreas × Screen)
  read_multiboot_info_told fuel room mem mbi s = and_next (say (announced mem mbi) s) (λ s1.
      and_next (tags_told fuel room mem (first_tag mbi) (no_areas mbi) s1)
        (λ p. with_areas p.0 (say (total p.0.multiboot_end mbi) p.1)))
