-- ===== src/Core/Boot.antt =====
-- The boot loader's information (src/core/boot.c, src/include/core/boot.h), read from memory: the
-- multiboot tags, and the areas that the kernel and the information itself occupy. The build is the
-- one without ENABLE_KERNEL_DEBUG, where DEBUG is nothing. `none` means that the fuel ran out.
pub mod Tags
pub mod Sections
pub mod Away
pub mod Reserved
use utero_archive.Base.{
  ℕ, zero, suc, ◌+◌, ◌-◌, ◌*◌, ◌^◌, Bool, true, false, Option, none, some, ltb, ◌==◌, if◌then◌else◌,
  bit_and, u32, u64,
}
use utero_archive.Base.Memory.{Memory, load}
use utero_archive.Mmu.Mmap.{MmapEntry, ReservedAreas}

abbrev pub multiboot2_magic_value : ℕ
multiboot2_magic_value = 0x36d76289

abbrev pub tag_end : ℕ
tag_end = 0

abbrev pub tag_mmap : ℕ
tag_mmap = 6

abbrev pub tag_elf_sections : ℕ
tag_elf_sections = 9

abbrev pub elf_section_null : ℕ
elf_section_null = 0

-- How `multiboot_is_valid` answers: the message that it prints is part of the refusal.
pub data Validity : Type 0 where
  valid : Validity
  invalid_magic : ℕ → Validity
  unaligned : ℕ → Validity

unfoldable pub multiboot_is_valid : ℕ → ℕ → Validity
multiboot_is_valid magic addr =
    if magic == multiboot2_magic_value
    then if bit_and addr 7 == 0 then valid else unaligned (u32 addr)
    else invalid_magic (u32 magic)

-- The fields of a tag, and of its kinds.
abbrev pub tag_type : Memory → ℕ → ℕ
tag_type mem tag = load 4 mem tag

abbrev pub tag_size : Memory → ℕ → ℕ
tag_size mem tag = load 4 mem (tag + 4)

abbrev pub first_tag : ℕ → ℕ
first_tag mbi = mbi + 8

-- tag + ((tag->size + 7) & ~7)
unfoldable pub next_tag : Memory → ℕ → ℕ
next_tag mem tag = u64 (tag + bit_and (u32 (tag_size mem tag + 7)) 0xfffffff8)

-- 0 is the null pointer.
unfoldable pub find_multiboot_tag : ℕ → Memory → ℕ → ℕ → Option ℕ
find_multiboot_tag zero mem tag type = none
find_multiboot_tag (suc fuel) mem tag type =
    let rest = find_multiboot_tag fuel mem (next_tag mem tag) type in
    if tag_type mem tag == tag_end
    then some 0
    else if tag_type mem tag == type
    then some tag
    else rest

abbrev pub section_type : Memory → ℕ → ℕ
section_type mem elf = load 4 mem (elf + 4)

abbrev pub section_addr : Memory → ℕ → ℕ
section_addr mem elf = load 8 mem (elf + 16)

abbrev pub section_bytes : Memory → ℕ → ℕ
section_bytes mem elf = load 8 mem (elf + 32)

abbrev pub sections_num : Memory → ℕ → ℕ
sections_num mem tag = load 4 mem (tag + 8)

abbrev pub section_size : Memory → ℕ → ℕ
section_size mem tag = load 4 mem (tag + 12)

abbrev pub first_section : ℕ → ℕ
first_section tag = tag + 20

-- What one section does to the kernel's area.
unfoldable pub add_section : Memory → ℕ → ReservedAreas → ReservedAreas
add_section mem elf r =
    let addr = section_addr mem elf in
    let stop = u64 (addr + section_bytes mem elf) in
    if section_type mem elf == elf_section_null then r else record r {
      kernel_start = if ltb addr r.kernel_start then addr else r.kernel_start;
      kernel_end = if ltb r.kernel_end stop then stop else r.kernel_end;
    }

-- The loop over the sections, by the number that is left.
unfoldable pub elf_loop : ℕ → Memory → ℕ → ℕ → ReservedAreas → ReservedAreas
elf_loop zero mem tag elf r = r
elf_loop (suc left) mem tag elf r =
    elf_loop left mem tag (u64 (elf + section_size mem tag)) (add_section mem elf r)

-- One tag: of all kinds only the sections change a variable.
unfoldable pub read_tag : Memory → ℕ → ReservedAreas → ReservedAreas
read_tag mem tag r =
    if tag_type mem tag == tag_elf_sections
    then elf_loop (sections_num mem tag) mem tag (first_section tag) r
    else r

unfoldable pub tags_loop : ℕ → Memory → ℕ → ReservedAreas → Option ReservedAreas
tags_loop zero mem tag r = none
tags_loop (suc fuel) mem tag r =
    let rest = tags_loop fuel mem (next_tag mem tag) (read_tag mem tag r) in
    if tag_type mem tag == tag_end
    then some (record r { multiboot_end = next_tag mem tag })
    else rest

unfoldable pub read_multiboot_info : ℕ → Memory → ℕ → Option ReservedAreas
read_multiboot_info fuel mem mbi =
    tags_loop fuel mem (first_tag mbi) (record {
      kernel_start = 2 ^ 64 - 1;
      kernel_end = 0;
      multiboot_start = mbi;
      multiboot_end = 0;
    })
