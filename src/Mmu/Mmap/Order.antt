-- ===== src/Mmu/Mmap/Order.antt =====
-- On a map in ascending order the allocator never hands out a frame twice, until the map ends.
use utero_archive.Base.{
  ℕ, zero, suc, ◌+◌, ◌*◌, ◌^◌, ◌≤◌, ◌<◌, ◌≡◌, refl, ◌∙◌, ap, false, some, List, [], ◌∷◌, arith,
  length, drop, get_elem?, Bool-cases, ◌⊎◌, inl, inr, ◌≢◌, u32,
}
use utero_archive.Mmu.Mmap.{page_size, Mmap, in_reserved_area, mmap_allocate_frame}
use utero_archive.Mmu.Mmap.Chunks.{Chunk, chunks, first_free, number_of}
use utero_archive.Mmu.Mmap.Frames.{IsMap, candidate, Allocated, mmap_allocate_frame-Allocated}

abbrev StartsFrom : ℕ → List Chunk → Type 0
StartsFrom b [] = Unit {0}
StartsFrom b (c ∷ cs) = b ≤ c.addr

-- Each chunk ends before the next one starts.
abbrev pub IsAscending : List Chunk → Type 0
IsAscending [] = Unit {0}
IsAscending (c ∷ cs) = StartsFrom (c.addr + page_size) cs × IsAscending cs

StartsFrom-get :
    (cs : List Chunk) (p b : ℕ) {d : Chunk}
    → StartsFrom b cs
    → IsAscending cs
    → get_elem? cs p ≡ some d
    → b + p * page_size ≤ d.addr
StartsFrom-get [] p b h a e = absurd (ground arith)
StartsFrom-get (c ∷ cs) zero b h a e = ground arith
StartsFrom-get (c ∷ cs) (suc p) b h a e =
    omega (arith, StartsFrom-get cs p (c.addr + page_size) a.0 a.1 e)

number_of-beyond :
    (c : Chunk) (cs : List Chunk) (k a : ℕ)
    → c.addr + page_size < a
    → number_of k (c ∷ cs) a ≡ number_of (k + 1) cs a
unfolding number_of
number_of-beyond c cs k a h = ground arith

-- The first chunk holds its own address and the next chunk's, if that follows at once.
number_of-first :
    (c : Chunk) (cs : List Chunk) (k a : ℕ)
    → c.addr ≤ a
    → a ≤ c.addr + page_size
    → number_of k (c ∷ cs) a ≡ k + 1
unfolding number_of
number_of-first c cs k a h h' = ground arith

-- The number of a chunk's own address is its position, or one more.
number_of-get :
    (cs : List Chunk) (k p : ℕ) {d : Chunk}
    → IsAscending cs
    → get_elem? cs p ≡ some d
    → (k + p ≤ number_of k cs d.addr) × (number_of k cs d.addr ≤ k + p + 1)
number_of-get [] k p a e = absurd (ground arith)
number_of-get (c ∷ cs) k zero {d} a e =
    let same : c.addr ≡ d.addr = ground arith in omega (arith, number_of-first c cs k d.addr)
number_of-get (c ∷ cs) k (suc p) {d} a e =
    let low = StartsFrom-get cs p (c.addr + page_size) a.0 a.1 e in
    let later = number_of-get cs (k + 1) p a.1 e in later_chunk p d.addr low later
  where
    later_chunk :
        (p a : ℕ)
        → c.addr + page_size + p * page_size ≤ a
        → (k + 1 + p ≤ number_of (k + 1) cs a) × (number_of (k + 1) cs a ≤ k + 1 + p + 1)
        → (k + suc p ≤ number_of k (c ∷ cs) a) × (number_of k (c ∷ cs) a ≤ k + suc p + 1)
    later_chunk p a low later = ground (arith, number_of-first c cs k a, number_of-beyond c cs k a)

-- A free address that is not 0 is that of a chunk, from the position asked for on.
first_free-get :
    (cs : List Chunk) (k : ℕ)
    → first_free (drop k cs) ≢ 0
    → (p : ℕ) × (c : Chunk) × (k ≤ p)
      × (get_elem? cs p ≡ some c)
      × (c.addr ≡ first_free (drop k cs))
unfolding first_free
first_free-get [] zero ne = absurd (ne refl)
first_free-get [] (suc k) ne = absurd (ne refl)
first_free-get (c ∷ cs) zero ne = elim (Bool-cases c.reserved) [
  | inl r ↦
      let (p, d, h, e, a) = first_free-get cs 0 (ground arith) in
      (suc p, d, omega arith, e, ground arith)
  | inr r ↦ (0, c, omega arith, refl, ground arith)
]
first_free-get (c ∷ cs) (suc k) ne =
    let (p, d, h, e, a) = first_free-get cs k ne in (suc p, d, omega arith, e, a)

StartsFrom-weaken : (cs : List Chunk) (b c : ℕ) → c ≤ b → StartsFrom b cs → StartsFrom c cs
StartsFrom-weaken [] b c h s = tt
StartsFrom-weaken (d ∷ cs) b c h s = omega arith

-- Where no free chunk is left from `k` on, none is left further on.
stays_empty :
    (cs : List Chunk) (k j : ℕ)
    → IsAscending cs
    → (1 ≤ k) ⊎ StartsFrom 1 cs
    → k ≤ j
    → first_free (drop k cs) ≡ 0
    → first_free (drop j cs) ≡ 0
unfolding first_free
stays_empty [] zero zero a s h e = refl
stays_empty [] zero (suc j) a s h e = refl
stays_empty [] (suc k) zero a s h e = refl
stays_empty [] (suc k) (suc j) a s h e = refl
stays_empty (c ∷ cs) (suc k) zero a s h e = absurd (omega arith)
stays_empty (c ∷ cs) zero zero a s h e = e
stays_empty (c ∷ cs) zero (suc j) a s h e =
    let behind : StartsFrom 1 cs = StartsFrom-weaken cs (c.addr + page_size) 1 (omega arith) a.0 in
    let all_reserved : first_free cs ≡ 0 = ground arith in
    stays_empty cs 0 j a.1 (inr behind) (omega arith) all_reserved
stays_empty (c ∷ cs) (suc k) (suc j) a s h e =
    let behind : StartsFrom 1 cs = StartsFrom-weaken cs (c.addr + page_size) 1 (omega arith) a.0 in
    stays_empty cs k j a.1 (inr behind) (omega arith) e

-- A chunk outside the reserved areas is left for the next call.
abbrev pub UsableLeft : Mmap → Type 0
UsableLeft m =
    (k : ℕ) × (m.next_free_frame ≤ k)
    × (candidate m k ≢ 0)
    × (in_reserved_area m (candidate m k) ≡ false)

abbrev pub AllBelow4G : List Chunk → Type 0
AllBelow4G [] = Unit {0}
AllBelow4G (c ∷ cs) = (c.addr < 2 ^ 32) × AllBelow4G cs

AllBelow4G-get :
    (cs : List Chunk) (p : ℕ) {c : Chunk}
    → AllBelow4G cs
    → get_elem? cs p ≡ some c
    → c.addr < 2 ^ 32
AllBelow4G-get [] p h e = absurd (ground arith)
AllBelow4G-get (c ∷ cs) zero h e = ground arith
AllBelow4G-get (c ∷ cs) (suc p) h e = AllBelow4G-get cs p h.1 e

get_elem?-lt {ℓ} :
    {A : Type ℓ} (xs : List A) (p : ℕ) {x : A} → get_elem? xs p ≡ some x → p < length xs
get_elem?-lt [] p e = absurd (ground arith)
get_elem?-lt (y ∷ xs) zero e = omega arith
get_elem?-lt (y ∷ xs) (suc p) e = omega (arith, get_elem?-lt xs p e)

module _ (m : Mmap) (ok : IsMap m) (up : IsAscending (chunks m.memory_area))
    (low : AllBelow4G (chunks m.memory_area)) where
  abbrev cs : List Chunk
  cs = chunks m.memory_area

  -- The number of a candidate is at least the position from which it was sought.
  candidate_number :
      (k : ℕ)
      → candidate m k ≢ 0
      → (k ≤ number_of 0 cs (u32 (candidate m k)))
        × (number_of 0 cs (u32 (candidate m k)) ≤ length cs)
  candidate_number k ne =
      let (p, c, h, e, a) = first_free-get cs k ne in
      let small = AllBelow4G-get cs p low e in
      let same : u32 (candidate m k) ≡ c.addr = omega arith in
      let bounds = number_of-get cs 0 p up e in
      let inside = get_elem?-lt cs p e in rw same (omega arith)

  Allocated-bounds :
      {r : ℕ × Mmap}
      → 1 ≤ m.next_free_frame
      → UsableLeft m
      → Allocated m m.next_free_frame r
      → (m.next_free_frame ≤ r.0)
        × (r.0 ≤ length cs)
        × (r.1 ≡ record m { next_free_frame = r.0 + 1 })
  Allocated-bounds {r} h (k, from, ne, free) a =
      let before : a.k ≤ k = ground (arith, a.skipped k, free) in
      let here : candidate m a.k ≢ 0 =
        λ e. ne (stays_empty cs a.k k up (inl (omega (arith, a.from_start))) before e) in
      let bounds = candidate_number a.k here in
      let same : u32 (r.0 + 1) ≡ r.0 + 1 = omega (arith, a.frame, bounds.1, ok.few) in
      (
        omega (arith, a.frame, a.from_start, bounds.0),
        omega (arith, a.frame, bounds.1),
        rw (← same) a.after,
      )

-- On an ascending map of chunks below 4 GiB, and while a chunk outside the reserved areas is
-- left, every allocation returns a frame that no earlier one returned: the frame is at least the
-- next free frame number and at most the number of chunks, and of the state only the next free
-- frame number changes, to one more than the frame.
pub mmap_allocate_frame-ascends :
    (m : Mmap) (fuel : ℕ)
    → IsMap m
    → IsAscending (chunks m.memory_area)
    → AllBelow4G (chunks m.memory_area)
    → 1 ≤ m.next_free_frame
    → UsableLeft m
    → m.next_free_frame ≤ 2 ^ 31
    → length (chunks m.memory_area) < fuel
    → (n : ℕ) × (mmap_allocate_frame fuel m ≡ some (n, record m { next_free_frame = n + 1 }))
      × (m.next_free_frame ≤ n)
      × (n ≤ length (chunks m.memory_area))
mmap_allocate_frame-ascends m fuel ok up low one left next f =
    let (r, e, a) = mmap_allocate_frame-Allocated m fuel ok next f in
    let (lo, hi, after) = Allocated-bounds m ok up low one left a in
    (r.0, e ∙ ap some (λ i. (r.0, after i)), lo, hi)
