-- ===== src/Mmu/Area/Entries.antt =====
-- How many entries the loop meets, and which.
use utero_archive.Base.{
  ℕ, zero, suc, ◌+◌, ◌*◌, ◌<◌, ◌^◌, ◌≡◌, refl, ◌∙◌, ap, true, false, arith, ltb, some, List, [],
  ◌∷◌, u64, length, get_elem?,
}
use utero_archive.Base.Memory.{Memory}
use utero_archive.Mmu.Mmap.{MmapEntry}
use utero_archive.Mmu.Area.{
  area_size, area_entry_size, first_entry, entry_at, cons_entry, entries_from, memory_area,
}

-- `n` entries, one behind the other.
unfoldable pub entry_list : ℕ → Memory → ℕ → ℕ → List MmapEntry
entry_list zero mem size entry = []
entry_list (suc n) mem size entry = entry_at mem entry ∷ entry_list n mem size (entry + size)

pub entries_from-entry_list :
    (n fuel : ℕ) (mem : Memory) (tag entry : ℕ)
    → 0 < area_entry_size mem tag
    → entry + n * area_entry_size mem tag ≡ tag + area_size mem tag
    → tag + area_size mem tag < 2 ^ 64
    → n < fuel
    → entries_from fuel mem tag entry ≡ some (entry_list n mem (area_entry_size mem tag) entry)
unfolding entries_from entry_list
entries_from-entry_list n zero mem tag entry pos end room f = absurd (omega arith)
entries_from-entry_list zero (suc fuel) mem tag entry pos end room f =
    let stop : ltb entry (tag + area_size mem tag) ≡ false = ground arith in rw stop refl
entries_from-entry_list (suc n) (suc fuel) mem tag entry pos end room f =
    let size = area_entry_size mem tag in
    let more : ltb entry (tag + area_size mem tag) ≡ true = grind arith in
    let step : u64 (entry + size) ≡ entry + size = grind arith in
    rw (more, step)
      (ap (cons_entry (entry_at mem entry)) (
        entries_from-entry_list n fuel mem tag (entry + size) pos (omega arith) room (omega arith)))

length-entry_list :
    (n : ℕ) (mem : Memory) (size entry : ℕ) → length (entry_list n mem size entry) ≡ n
unfolding entry_list
length-entry_list zero mem size entry = refl
length-entry_list (suc n) mem size entry = ap suc (length-entry_list n mem size (entry + size))

get_elem?-entry_list :
    (n k : ℕ) (mem : Memory) (size entry : ℕ)
    → k < n
    → get_elem? (entry_list n mem size entry) k ≡ some (entry_at mem (entry + k * size))
unfolding entry_list
get_elem?-entry_list zero k mem size entry h = absurd (omega arith)
get_elem?-entry_list (suc n) zero mem size entry h = ap (λ a. some (entry_at mem a)) (omega arith)
get_elem?-entry_list (suc n) (suc k) mem size entry h =
    get_elem?-entry_list n k mem size (entry + size) (omega arith)
    ∙ ap (λ a. some (entry_at mem a)) (omega arith)

-- Of a tag whose size is that of its head and of `n` entries, of a size that is not 0, the loop
-- meets just these entries, in order, and ends.
pub memory_area-entries :
    (n fuel : ℕ) (mem : Memory) (tag : ℕ)
    → 0 < area_entry_size mem tag
    → area_size mem tag ≡ 16 + n * area_entry_size mem tag
    → tag + area_size mem tag < 2 ^ 64
    → n < fuel
    → (es : List MmapEntry) × (memory_area fuel mem tag ≡ some es)
      × (length es ≡ n)
      × ((k : ℕ)
          → k < n
          → get_elem? es k ≡ some (entry_at mem (first_entry tag + k * area_entry_size mem tag)))
unfolding memory_area
memory_area-entries n fuel mem tag pos size room f =
    let step = area_entry_size mem tag in
    (
      entry_list n mem step (first_entry tag),
      entries_from-entry_list n fuel mem tag (first_entry tag) pos (omega arith) room f,
      length-entry_list n mem step (first_entry tag),
      λ k h. get_elem?-entry_list n k mem step (first_entry tag) h,
    )
