-- ===== src/Kernel/Reach/Allocation.antt =====
-- The allocator in the states behind the start.
use mathlib.Core.Option.{some-injective}
use utero_archive.Base.{ℕ, ◌%◌, ◌<◌, ◌≡◌, sym, ◌∙◌, false, some, List, length}
use utero_archive.Core.Boot.{multiboot2_magic_value, read_multiboot_info}
use utero_archive.Core.Boot.Sections.{areas_of, read_multiboot_info-areas_of}
use utero_archive.Mmu.Mmap.{MmapEntry, ReservedAreas, mmap_allocate_frame}
use utero_archive.Mmu.Mmap.Chunks.{chunks}
use utero_archive.Mmu.Mmap.Frames.{IsMap}
use utero_archive.Mmu.Area.{area_entry_size, first_entry}
use utero_archive.Mmu.Area.Entries.{entry_list}
use utero_archive.Kernel.State.{Build, Kernel}
use utero_archive.Kernel.Frames.{Apart, first_frame-Apart}
use utero_archive.Kernel.Panic.Halting.{IsLocation}
use utero_archive.Kernel.Start.{Schedule, kmain}
use utero_archive.Kernel.Start.Whole.{IsMachine, managed}
use utero_archive.Kernel.Reach.{Reach}
use utero_archive.Kernel.Reach.Served.{kmain-IsSetUp}

module _ (b : Build) (arrivals : Schedule) (k0 : Kernel) (machine : IsMachine b arrivals k0) where
  open machine use {mbi, stop, tag, count, tags}

  abbrev listed : List MmapEntry
  listed =
      let mem = k0.screen.hardware.memory in
      entry_list count mem (area_entry_size mem tag) (first_entry tag)

  -- Behind a start, whatever exceptions, interrupts and keys have come, an allocation from a map in
  -- range whose reserved areas keep off address 0 returns, with fuel for one call more than there are
  -- chunks: the frame is the number of the low 32 bits of an address that lies in no section that the
  -- boot loader's information calls used, and not in the information itself; of an address below
  -- 4 GiB it is the number of the address itself.
  pub kmain-Apart :
      (k k' : Kernel) (fuel : ℕ)
      → mbi % 8 ≡ 0
      → k0.halted ≡ false
      → IsLocation b.isr_panic
      → kmain b arrivals multiboot2_magic_value mbi k0 ≡ some (tt, k)
      → Reach b k k'
      → IsMap (managed b arrivals k0 machine)
      → length (chunks listed) < fuel
      → Apart k0.screen.hardware.memory mbi stop tags k'.mmap (mmap_allocate_frame fuel k'.mmap)
  kmain-Apart k k' fuel aligned running loc started reach map enough =
      let mem = k0.screen.hardware.memory in
      let set = (kmain-IsSetUp b arrivals k0 machine aligned running loc k k' started reach).0 in
      let boot = machine.boot in
      let read =
        read_multiboot_info-areas_of mem mbi tags stop b.fuel boot.information.tags
          boot.tags_fuel in
      let same : (r : ReservedAreas)
          → read_multiboot_info b.fuel mem mbi ≡ some r
          → areas_of mem mbi tags stop ≡ r =
        λ r e. some-injective _ r (sym read ∙ e) in
      let (r, e, apart) =
        first_frame-Apart mem mbi stop b.fuel fuel tags listed boot.information.tags boot.tags_fuel
          (λ r e. rw (sym (same r e)) map) enough in
      rw (set.frames, same r e) apart
