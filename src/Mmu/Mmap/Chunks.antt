-- ===== src/Mmu/Mmap/Chunks.antt =====
-- What the memory map stands for: the list of its chunks, and the answers that `mmap_read` is
-- to give on it.
use utero_archive.Base.{
  ℕ, zero, suc, ◌+◌, ◌-◌, ◌/◌, ◌^◌, ◌<◌, Bool, ◌&&◌, List, [], ◌∷◌, ◌++◌, leb, ◌==◌, if◌then◌else◌,
  drop,
}
use utero_archive.Mmu.Mmap.{get_num, get_addr, page_size, memory_reserved, MmapEntry}

pub record Chunk : Type 0 where
  pub addr : ℕ
  pub reserved : Bool

-- `n` chunks from address `i` on.
unfoldable pub chunks_from : ℕ → ℕ → Bool → List Chunk
chunks_from zero i r = []
chunks_from (suc n) i r = record { addr = i; reserved = r } ∷ chunks_from n (i + page_size) r

-- The loop's test is strict, so an entry's last page counts only if a byte follows it.
abbrev pub chunk_count : MmapEntry → ℕ
chunk_count e = (e.len - 1) / page_size

unfoldable pub entry_chunks : MmapEntry → List Chunk
entry_chunks e = chunks_from (chunk_count e) e.addr (e.type == memory_reserved)

unfoldable pub chunks : List MmapEntry → List Chunk
chunks [] = []
chunks (e ∷ es) = entry_chunks e ++ chunks es

-- The address of the first chunk that is not reserved, 0 if there is none.
unfoldable pub first_free : List Chunk → ℕ
first_free [] = 0
first_free (c ∷ cs) = if c.reserved then first_free cs else c.addr

-- One more than the position of the first chunk that holds an address, its upper end included.
unfoldable pub number_of : ℕ → List Chunk → ℕ → ℕ
number_of k [] a = 0
number_of k (c ∷ cs) a =
    if leb c.addr a && leb a (c.addr + page_size) then k + 1 else number_of (k + 1) cs a

-- The entries that the theorems are about: none reaches the last page of the address space.
abbrev pub InRange : MmapEntry → Type 0
InRange e = e.addr + e.len + page_size < 2 ^ 64

abbrev pub AllInRange : List MmapEntry → Type 0
AllInRange [] = Unit {0}
AllInRange (e ∷ es) = InRange e × AllInRange es

-- What `mmap_read` is to answer, for each mode.
unfoldable pub read_chunks : List Chunk → ℕ → ℕ → ℕ
read_chunks cs request mode =
    if mode == get_num
    then number_of 0 cs request
    else if mode == get_addr
    then first_free (drop request cs)
    else 0
