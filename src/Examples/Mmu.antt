-- ===== src/Examples/Mmu.antt =====
-- The theorems on src/mmu at concrete inputs.
use utero_archive.Base.{ℕ, ◌+◌, ◌*◌, ◌≤◌, ◌≡◌, inr, some, List, [], ◌∷◌, arith, refl, length}
use utero_archive.Mmu.Mmap.{
  MmapEntry, Mmap, get_addr, mmap_read, mmap_allocate_frame, in_reserved_area,
  frame_starting_address, mmap_deallocate_frame,
}
use utero_archive.Mmu.Mmap.Chunks.{chunks, entry_chunks, chunks_from, read_chunks, first_free}
use utero_archive.Mmu.Mmap.Read.{mmap_read-read_chunks}
use utero_archive.Mmu.Mmap.Frames.{IsMap, Allocated, mmap_allocate_frame-Allocated}
use utero_archive.Mmu.Mmap.Order.{mmap_allocate_frame-ascends}
use utero_archive.Mmu.Mmap.Limits.{mmap_allocate_frame_exhausted, mmap_deallocate_frame_lem}

-- Three pages of memory, a reserved page and two more pages of memory.
abbrev pub area : List MmapEntry
area =
    record { addr = 0; len = 3 * 4096 + 1; type = 1 }
    ∷ record { addr = 0x8000; len = 4097; type = 2 }
    ∷ record { addr = 0x10000; len = 2 * 4096 + 1; type = 1 }
    ∷ []

-- The kernel lies on the third page.
abbrev pub small : Mmap
small = record {
  memory_area = area;
  kernel_start = 0x2000;
  kernel_end = 0x2800;
  multiboot_start = 0x2900;
  multiboot_end = 0x2A00;
  next_free_frame = 2;
}

mmap_read-read_chunks_example : mmap_read area 3 get_addr ≡ some 0x10000
unfolding chunks entry_chunks chunks_from read_chunks first_free
mmap_read-read_chunks_example =
    mmap_read-read_chunks area 3 get_addr (omega arith) (omega arith) (inr (omega arith))

small-IsMap : IsMap small
unfolding chunks entry_chunks chunks_from in_reserved_area
small-IsMap = record { range = omega arith; few = omega arith; zero_free = refl }

mmap_allocate_frame-Allocated_example :
    (r : ℕ × Mmap) × (mmap_allocate_frame 9 small ≡ some r) × Allocated small 2 r
unfolding chunks entry_chunks chunks_from
mmap_allocate_frame-Allocated_example =
    mmap_allocate_frame-Allocated small 9 small-IsMap (omega arith) (omega arith)

mmap_allocate_frame-ascends_example :
    (n : ℕ) × (mmap_allocate_frame 9 small ≡ some (n, record small { next_free_frame = n + 1 }))
    × (2 ≤ n)
    × (n ≤ length (chunks area))
unfolding chunks entry_chunks chunks_from first_free in_reserved_area
mmap_allocate_frame-ascends_example =
    mmap_allocate_frame-ascends small 9 small-IsMap (omega arith) (omega arith) (omega arith)
      (4, omega arith, omega arith, refl) (omega arith) (omega arith)

mmap_allocate_frame_exhausted_example :
    mmap_allocate_frame 1 (record small { next_free_frame = 6 })
    ≡ some (1, record small { next_free_frame = 2 })
unfolding chunks entry_chunks chunks_from first_free in_reserved_area
mmap_allocate_frame_exhausted_example =
    mmap_allocate_frame_exhausted (record small { next_free_frame = 6 }) 0
      (record { range = omega arith; few = omega arith; zero_free = refl }) (omega arith) refl refl

mmap_deallocate_frame_lem_example : mmap_deallocate_frame 7 (λ x. 9) 0x8000 ≡ 0
unfolding frame_starting_address
mmap_deallocate_frame_lem_example = mmap_deallocate_frame_lem 7 (λ x. 9) 0x8000
