-- ===== src/Mmu/Mmap/Frames.antt =====
-- The allocator: which frame a call hands out, and that it returns.
use utero_archive.Base.{
  ℕ, zero, suc, ◌+◌, ◌-◌, ◌^◌, ◌≤◌, ◌<◌, ◌≡◌, refl, ap, ◌∙◌, true, false, some, List, [], ◌∷◌,
  arith, length, drop, Bool-cases, inl, inr, u32,
}
use utero_archive.Mmu.Mmap.{
  get_num, get_addr, Mmap, mmap_read, in_reserved_area, mmap_allocate_frame,
}
use utero_archive.Mmu.Mmap.Chunks.{Chunk, chunks, first_free, number_of, read_chunks, AllInRange}
use utero_archive.Mmu.Mmap.Read.{mmap_read-read_chunks}

-- The address that the allocator looks at when its next frame is `k`.
abbrev pub candidate : Mmap → ℕ → ℕ
candidate m k = first_free (drop k (chunks m.memory_area))

-- A call that began at frame number `start` and stopped at `k`: every candidate before was reserved, and this one is
-- not; the frame handed out is the number of the low 32 bits of its address, which of an address below
-- 4 GiB is the number of the address, and the next call starts behind it.
pub record Allocated (m : Mmap) (start : ℕ) (r : ℕ × Mmap) : Type 0 where
  pub k : ℕ
  pub from_start : start ≤ k
  pub skipped : (j : ℕ) → start ≤ j → j < k → in_reserved_area m (candidate m j) ≡ true
  pub free : in_reserved_area m (candidate m k) ≡ false
  pub frame : r.0 ≡ number_of 0 (chunks m.memory_area) (u32 (candidate m k))
  pub exact : candidate m k < 2 ^ 32 → r.0 ≡ number_of 0 (chunks m.memory_area) (candidate m k)
  pub after : r.1 ≡ record m { next_free_frame = u32 (r.0 + 1) }

-- A map that the theorems speak of, with fewer than 2^31 chunks.
pub record IsMap (m : Mmap) : Type 0 where
  pub range : AllInRange m.memory_area
  pub few : length (chunks m.memory_area) < 2 ^ 31
  pub zero_free : in_reserved_area m 0 ≡ false

first_free-drop : (cs : List Chunk) (k : ℕ) → length cs ≤ k → first_free (drop k cs) ≡ 0
unfolding first_free
first_free-drop [] zero h = refl
first_free-drop [] (suc k) h = refl
first_free-drop (c ∷ cs) zero h = absurd (omega arith)
first_free-drop (c ∷ cs) (suc k) h = first_free-drop cs k (omega arith)

abbrev pub at : Mmap → ℕ → Mmap
at m k = record m { next_free_frame = k }

module _ (m : Mmap) (ok : IsMap m) where
  read_addr : (k : ℕ) → k ≤ 2 ^ 31 → mmap_read m.memory_area k get_addr ≡ some (candidate m k)
  unfolding read_chunks
  read_addr k h =
      mmap_read-read_chunks m.memory_area k 1 ok.range (omega (arith, ok.few))
        (inr (omega (arith, ok.few)))

  read_num :
      (a : ℕ) → mmap_read m.memory_area a get_num ≡ some (number_of 0 (chunks m.memory_area) a)
  unfolding read_chunks
  read_num a = mmap_read-read_chunks m.memory_area a 0 ok.range (omega (arith, ok.few)) (inl refl)

  -- Only a candidate within the map is ever reserved.
  taken-lt : (k : ℕ) → in_reserved_area m (candidate m k) ≡ true → k < length (chunks m.memory_area)
  taken-lt k t = ground (arith, first_free-drop (chunks m.memory_area) k, ok.zero_free)

  step_taken :
      (fuel k : ℕ)
      → in_reserved_area m (candidate m k) ≡ true
      → mmap_allocate_frame (suc fuel) (at m k) ≡ mmap_allocate_frame fuel (at m (k + 1))
  unfolding mmap_allocate_frame in_reserved_area
  step_taken fuel k t =
      let small : k + 1 ≤ 2 ^ 31 = omega (arith, taken-lt k t, ok.few) in
      let same : u32 (k + 1) ≡ k + 1 = omega arith in
      rw (read_addr k (omega arith), mmap_allocate_frame, t, same) refl

  abbrev pub handed_out : ℕ → ℕ × Mmap
  handed_out k =
      let n = number_of 0 (chunks m.memory_area) (u32 (candidate m k)) in (n, at m (u32 (n + 1)))

  pub step_free :
      (fuel k : ℕ)
      → k ≤ 2 ^ 31
      → in_reserved_area m (candidate m k) ≡ false
      → mmap_allocate_frame (suc fuel) (at m k) ≡ some (handed_out k)
  unfolding mmap_allocate_frame in_reserved_area
  step_free fuel k h t =
      rw (read_addr k h, mmap_allocate_frame, t, read_num (u32 (candidate m k))) refl

  Allocated-here :
      (k : ℕ) → in_reserved_area m (candidate m k) ≡ false → Allocated m k (handed_out k)
  Allocated-here k free = record {
    k = k;
    from_start = omega arith;
    skipped = λ j p q. absurd (omega arith);
    free = free;
    frame = refl;
    exact = λ low. ap (number_of 0 (chunks m.memory_area)) (omega arith);
    after = refl;
  }

  Allocated-earlier :
      (k : ℕ) {r : ℕ × Mmap}
      → in_reserved_area m (candidate m k) ≡ true
      → Allocated m (k + 1) r
      → Allocated m k r
  Allocated-earlier k taken a = record {
    k = a.k;
    from_start = omega (arith, a.from_start);
    skipped = λ j p q. ground (arith, a.skipped j, taken);
    free = a.free;
    frame = a.frame;
    exact = a.exact;
    after = a.after;
  }

  -- The recursion stops at the end of the chunks at the latest, where the address is 0.
  allocate_from :
      (fuel k : ℕ)
      → k ≤ 2 ^ 31
      → length (chunks m.memory_area) - k < fuel
      → (r : ℕ × Mmap) × (mmap_allocate_frame fuel (at m k) ≡ some r) × Allocated m k r
  allocate_from zero k h f = absurd (omega arith)
  allocate_from (suc fuel) k h f = elim (Bool-cases (in_reserved_area m (candidate m k))) [
    | inl taken ↦
        let below = taken-lt k taken in
        let (r, e, a) = allocate_from fuel (k + 1) (omega (arith, ok.few)) (omega arith) in
        (r, step_taken fuel k taken ∙ e, Allocated-earlier k taken a)
    | inr free ↦ (handed_out k, step_free fuel k h free, Allocated-here k free)
  ]

-- On a map with fewer than 2^31 chunks, none of which reaches the last page of the address space,
-- whose reserved areas do not hold address 0, the allocator returns: as much fuel as there are
-- chunks, and one more, is enough. The frame handed out is the number that `mmap_read` gives to the
-- low 32 bits of the first candidate address that lies in no reserved area, which is the number of
-- the address itself if it is below 4 GiB, and the next call starts behind it.
pub mmap_allocate_frame-Allocated :
    (m : Mmap) (fuel : ℕ)
    → IsMap m
    → m.next_free_frame ≤ 2 ^ 31
    → length (chunks m.memory_area) < fuel
    → (r : ℕ × Mmap) × (mmap_allocate_frame fuel m ≡ some r) × Allocated m m.next_free_frame r
mmap_allocate_frame-Allocated m fuel ok h f =
    allocate_from m ok fuel m.next_free_frame h (omega arith)
