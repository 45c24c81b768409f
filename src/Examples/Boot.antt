-- ===== src/Examples/Boot.antt =====
-- The theorems on the boot loader's information at concrete inputs.
use utero_archive.Base.{ℕ, ◌≡◌, some, List, [], ◌∷◌, arith, refl, if◌then◌else◌, ◌==◌}
use utero_archive.Base.Memory.{Memory, load}
use utero_archive.Core.Boot.{
  first_tag, next_tag, read_multiboot_info, tags_loop, read_tag, elf_loop, add_section,
}
use utero_archive.Core.Boot.Tags.{TagsFrom}
use utero_archive.Core.Boot.Reserved.{Reserves, read_multiboot_info-Reserves}
use utero_archive.Mmu.Mmap.{MmapEntry, ReservedAreas, in_reserved_area, mmap_init}
use utero_archive.Mmu.Mmap.Chunks.{chunks, entry_chunks, chunks_from}
use utero_archive.Mmu.Mmap.Frames.{IsMap}
use utero_archive.Mmu.Area.{mmu_init, paging_init}

-- Three tags at 0x9008: one section of 0x1000 bytes at 0x2000, a map with three pages, and the end.
abbrev pub image : Memory
image x =
    if x == 0x9008
    then 9
    else if x == 0x900C
    then 84
    else if x == 0x9010
    then 1
    else if x == 0x9014
    then 64
    else if x == 0x9020
    then 1
    else if x == 0x902D
    then 0x20
    else if x == 0x903D
    then 0x10
    else if x == 0x9060
    then 6
    else if x == 0x9064
    then 40
    else if x == 0x9068
    then 24
    else if x == 0x9078
    then 1
    else if x == 0x9079
    then 0x30
    else if x == 0x9080
    then 1
    else if x == 0x908C
    then 8
    else 0

abbrev pub tags : List ℕ
tags = 0x9008 ∷ 0x9060 ∷ []

pub image-TagsFrom : TagsFrom image (first_tag 0x9000) tags 0x9088
unfolding load next_tag
image-TagsFrom = (refl, λ e. absurd (omega arith), (refl, λ e. absurd (omega arith), (refl, refl)))

read_multiboot_info-Reserves_example :
    Reserves image 0x9000 tags 0x9088 (read_multiboot_info 3 image 0x9000)
read_multiboot_info-Reserves_example =
    read_multiboot_info-Reserves image 0x9000 tags 0x9088 3 image-TagsFrom (omega arith)

abbrev pub pages : List MmapEntry
pages = record { addr = 0; len = 0x3001; type = 1 } ∷ []

abbrev pub areas : ReservedAreas
areas = record {
  kernel_start = 0x2000;
  kernel_end = 0x3000;
  multiboot_start = 0x9000;
  multiboot_end = 0x9090;
}

image-areas : read_multiboot_info 3 image 0x9000 ≡ some areas
unfolding read_multiboot_info tags_loop read_tag elf_loop add_section next_tag load
image-areas = refl

pub areas-IsMap : IsMap (mmu_init pages areas)
unfolding mmu_init mmap_init paging_init in_reserved_area chunks entry_chunks chunks_from
areas-IsMap = record { range = omega arith; few = omega arith; zero_free = refl }
