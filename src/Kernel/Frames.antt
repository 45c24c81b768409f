-- ===== src/Kernel/Frames.antt =====
-- The allocator behind the start: the frames keep off the sections that the boot loader lists and
-- off its information.
use utero_archive.Base.{
  ℕ, ◌+◌, ◌^◌, ◌<◌, ◌≡◌, ◌≢◌, ◌⊎◌, arith, false, Option, some, List, [], ◌∷◌, length, u32, u64,
}
use utero_archive.Base.Memory.{Memory}
use utero_archive.Mmu.Mmap.{
  MmapEntry, Mmap, ReservedAreas, in_reserved_area, mmap_init, mmap_allocate_frame,
}
use utero_archive.Mmu.Mmap.Chunks.{chunks, number_of}
use utero_archive.Mmu.Mmap.Frames.{IsMap, candidate, mmap_allocate_frame-Allocated}
use utero_archive.Mmu.Area.{mmu_init, paging_init}
use utero_archive.Core.Boot.{
  first_tag, next_tag, section_type, section_addr, section_bytes, elf_section_null,
  read_multiboot_info,
}
use utero_archive.Core.Boot.Tags.{TagsFrom}
use utero_archive.Core.Boot.Sections.{all_sections}
use utero_archive.Core.Boot.Reserved.{CoversAll, Reserves, read_multiboot_info-Reserves}

abbrev pub OutsideSection : Memory → ℕ → ℕ → Type 0
OutsideSection mem a e =
    section_type mem e ≢ elf_section_null
    → (a < section_addr mem e) ⊎ (u64 (section_addr mem e + section_bytes mem e) < a)

abbrev pub OutsideAll : Memory → ℕ → List ℕ → Type 0
OutsideAll mem a [] = Unit {0}
OutsideAll mem a (e ∷ es) = OutsideSection mem a e × OutsideAll mem a es

free-outside :
    (m : Mmap) (a : ℕ)
    → in_reserved_area m a ≡ false
    → ((a < m.multiboot_start) ⊎ (m.multiboot_end < a))
      × ((a < m.kernel_start) ⊎ (m.kernel_end < a))
unfolding in_reserved_area
free-outside m a free = ground arith

covered-OutsideAll :
    (mem : Memory) (r : ReservedAreas) (a : ℕ) (es : List ℕ)
    → (a < r.kernel_start) ⊎ (r.kernel_end < a)
    → CoversAll mem r es
    → OutsideAll mem a es
covered-OutsideAll mem r a [] free c = tt
covered-OutsideAll mem r a (e ∷ es) free (own, rest) =
    (λ used. let c = own used in ground (arith, c.0, c.1), covered-OutsideAll mem r a es free rest)

-- What the first allocation hands out: the number of the low 32 bits of an address that lies in none
-- of the sections in use, nor in the boot loader's information; below 4 GiB, of the address itself.
pub record Apart (mem : Memory) (mbi stop : ℕ) (ts : List ℕ) (m : Mmap) (result : Option (ℕ × Mmap))
    : Type 0 where
  pub frame : ℕ
  pub after : Mmap
  pub addr : ℕ
  pub returns : result ≡ some (frame, after)
  pub number : frame ≡ number_of 0 (chunks m.memory_area) (u32 addr)
  pub exact : addr < 2 ^ 32 → frame ≡ number_of 0 (chunks m.memory_area) addr
  pub sections : OutsideAll mem addr (all_sections mem ts)
  pub information : (addr < mbi) ⊎ (next_tag mem stop < addr)

Allocated-Apart :
    (mem : Memory) (mbi stop fuel : ℕ) (ts : List ℕ) (es : List MmapEntry)
    {result : Option ReservedAreas} (reserves : Reserves mem mbi ts stop result)
    → IsMap (mmu_init es reserves.areas)
    → length (chunks es) < fuel
    → Apart mem mbi stop ts
        (mmu_init es reserves.areas)
        (mmap_allocate_frame fuel (mmu_init es reserves.areas))
unfolding mmu_init mmap_init paging_init
Allocated-Apart mem mbi stop fuel ts es reserves ok f =
    let r = reserves.areas in
    let m = mmu_init es r in
    let (found, returns, a) = mmap_allocate_frame-Allocated m fuel ok (omega arith) f in
    let addr = candidate m a.k in
    let outside = free-outside m addr a.free in
    record {
      frame = found.0;
      after = found.1;
      addr = addr;
      returns = returns;
      number = a.frame;
      exact = a.exact;
      sections = covered-OutsideAll mem r addr (all_sections mem ts) outside.1 reserves.covers;
      information = ground (arith, reserves.own_start, reserves.own_end, outside.0);
    }

-- From tags that end and a map whose reserved areas keep off address 0, the kernel reads the
-- reserved areas, starts the memory management, and its first allocation returns: fuel for the
-- tags and one more, and for the chunks and one more, is enough. The frame handed out is the
-- number of the low 32 bits of an address that lies in no section in use, and not in the information
-- itself; below 4 GiB it is the number of that address.
pub first_frame-Apart :
    (mem : Memory) (mbi stop fuel fuel' : ℕ) (ts : List ℕ) (es : List MmapEntry)
    → TagsFrom mem (first_tag mbi) ts stop
    → length ts < fuel
    → ((r : ReservedAreas) → read_multiboot_info fuel mem mbi ≡ some r → IsMap (mmu_init es r))
    → length (chunks es) < fuel'
    → (r : ReservedAreas) × (read_multiboot_info fuel mem mbi ≡ some r)
      × Apart mem mbi stop ts (mmu_init es r) (mmap_allocate_frame fuel' (mmu_init es r))
first_frame-Apart mem mbi stop fuel fuel' ts es tags f ok f' =
    let reserves = read_multiboot_info-Reserves mem mbi ts stop fuel tags f in
    let e = reserves.returns in
    (reserves.areas, e, Allocated-Apart mem mbi stop fuel' ts es reserves (ok reserves.areas e) f')
