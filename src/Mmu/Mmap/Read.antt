-- ===== src/Mmu/Mmap/Read.antt =====
-- `mmap_read` answers by the list of chunks.
use utero_archive.Base.{
  ℕ, zero, suc, ◌+◌, ◌-◌, ◌/◌, ◌^◌, ◌≤◌, ◌<◌, ◌≡◌, refl, ap, Bool, ◌&&◌, none, some, List, [], ◌∷◌,
  ◌++◌, arith, leb, ◌==◌, if◌then◌else◌, length, drop, length-append, ◌⊎◌, inl, inr, ◌≢◌,
}
use utero_archive.Mmu.Mmap.{
  page_size, memory_reserved, get_num, get_addr, MmapEntry, Walk, found, next, out_of_fuel,
  chunk_loop, entry_loop, mmap_read,
}
use utero_archive.Mmu.Mmap.Chunks.{
  Chunk, chunks_from, chunk_count, entry_chunks, chunks, first_free, number_of, read_chunks,
  InRange, AllInRange,
}

-- The body of the loop, over the list of chunks.
scan : ℕ → List Chunk → ℕ → ℕ → Walk
scan mode [] cur req = next cur req
scan mode (c ∷ cs) cur req =
    let wanted = mode == get_addr && cur == req in
    let skip = scan mode cs (cur + 1) (if wanted then req + 1 else req) in
    let go_on = scan mode cs (cur + 1) req in
    if mode == get_num && (leb c.addr req && leb req (c.addr + page_size))
    then found (cur + 1)
    else if c.reserved
    then skip
    else if wanted
    then found c.addr
    else go_on

-- The request grows in the address mode alone, and must not wrap there.
abbrev pub Room : ℕ → ℕ → ℕ → Type 0
Room mode req n = (mode ≡ get_num) ⊎ (req + n < 2 ^ 32)

chunk_loop-scan :
    (f n : ℕ) (e : MmapEntry) (mode i cur req : ℕ)
    → InRange e
    → i ≤ e.addr + e.len
    → n ≡ (e.addr + e.len - i - 1) / page_size
    → n < f
    → cur + n < 2 ^ 32
    → Room mode req n
    → chunk_loop f e mode i cur req
      ≡ scan mode (chunks_from n i (e.type == memory_reserved)) cur req
unfolding chunk_loop scan chunks_from
chunk_loop-scan zero n e mode i cur req range low size fuel hc hr = absurd (omega arith)
chunk_loop-scan (suc f) zero e mode i cur req range low size fuel hc hr = ground arith
chunk_loop-scan (suc f) (suc n) e mode i cur req range low size fuel hc hr = ground (
  arith,
  chunk_loop-scan f n e mode (i + page_size) (cur + 1) req,
  chunk_loop-scan f n e mode (i + page_size) (cur + 1) (req + 1),
)

-- Goes on with the chunks behind, unless the loop has returned.
abbrev and_then : Walk → (ℕ → ℕ → Walk) → Walk
and_then (found a) k = found a
and_then (next cur req) k = k cur req
and_then out_of_fuel k = out_of_fuel

scan-append :
    (mode : ℕ) (xs ys : List Chunk) (cur req : ℕ)
    → scan mode (xs ++ ys) cur req ≡ and_then (scan mode xs cur req) (scan mode ys)
unfolding scan
scan-append mode [] ys cur req = refl
scan-append mode (c ∷ xs) ys cur req =
    ground (arith, scan-append mode xs ys (cur + 1) req, scan-append mode xs ys (cur + 1) (req + 1))

-- What the loop goes on with: every chunk is counted, and the request has grown by one for each
-- chunk at most.
abbrev Passed : ℕ → ℕ → ℕ → Walk → Type 0
Passed n cur req (found a) = Unit {0}
Passed n cur req (next cur' req') = (cur' ≡ cur + n) × (req' ≤ req + n)
Passed n cur req out_of_fuel = ⊥

scan-Passed :
    (mode : ℕ) (cs : List Chunk) (cur req : ℕ) → Passed (length cs) cur req (scan mode cs cur req)
unfolding scan
scan-Passed mode [] cur req = omega arith
scan-Passed mode (c ∷ cs) cur req =
    ground (arith, scan-Passed mode cs (cur + 1) req, scan-Passed mode cs (cur + 1) (req + 1))

length-chunks_from : (n i : ℕ) (r : Bool) → length (chunks_from n i r) ≡ n
unfolding chunks_from
length-chunks_from zero i r = refl
length-chunks_from (suc n) i r = ap suc (length-chunks_from n (i + page_size) r)

abbrev answer : Walk → ℕ
answer (found a) = a
answer (next cur req) = 0
answer out_of_fuel = 0

length-entry_chunks : (e : MmapEntry) → length (entry_chunks e) ≡ chunk_count e
unfolding entry_chunks
length-entry_chunks e = length-chunks_from (chunk_count e) e.addr (e.type == memory_reserved)

entry_loop-scan :
    (es : List MmapEntry) (mode cur req : ℕ)
    → AllInRange es
    → cur + length (chunks es) < 2 ^ 32
    → Room mode req (length (chunks es))
    → entry_loop es mode cur req ≡ some (answer (scan mode (chunks es) cur req))
unfolding entry_loop scan chunks
entry_loop-scan [] mode cur req range hc hr = refl
entry_loop-scan (e ∷ es) mode cur req range hc hr =
    rw (walked, entry_loop, scan-append mode (entry_chunks e) (chunks es) cur req)
      (go (scan mode (entry_chunks e) cur req) (scan-Passed mode (entry_chunks e) cur req)
        (λ c r. entry_loop-scan es mode c r range.1))
  where
    total : length (entry_chunks e) + length (chunks es) ≡ length (chunks (e ∷ es))
    total = unfold chunks in omega (arith, length-append {0} (entry_chunks e) (chunks es))

    walked :
        chunk_loop (e.len / page_size + 1) e mode e.addr cur req
        ≡ scan mode (entry_chunks e) cur req
    walked =
        unfold entry_chunks in
        chunk_loop-scan (e.len / page_size + 1) (chunk_count e) e mode e.addr cur req range.0
          (omega arith) (omega arith) (omega arith) (omega (arith, total, length-entry_chunks e))
          (omega (arith, total, length-entry_chunks e))

    go :
        (w : Walk)
        → Passed (length (entry_chunks e)) cur req w
        → ((c r : ℕ)
            → c + length (chunks es) < 2 ^ 32
            → Room mode r (length (chunks es))
            → entry_loop es mode c r ≡ some (answer (scan mode (chunks es) c r)))
        → elim w [ found a ↦ some a | next c r ↦ entry_loop es mode c r | out_of_fuel ↦ none ]
          ≡ some (answer (and_then w (scan mode (chunks es))))
    go (found a) p ih = refl
    go (next c r) p ih = ih c r (omega (arith, total)) (omega (arith, total))
    go out_of_fuel p ih = absurd p

-- In the address mode the loop passes `d` chunks and then takes the first that is not reserved.
scan-first_free :
    (cs : List Chunk) (d cur req : ℕ)
    → req ≡ cur + d
    → answer (scan get_addr cs cur req) ≡ first_free (drop d cs)
unfolding scan first_free
scan-first_free [] zero cur req e = refl
scan-first_free [] (suc d) cur req e = refl
scan-first_free (c ∷ cs) zero cur req e = ground (arith, scan-first_free cs 0 (cur + 1) (req + 1))
scan-first_free (c ∷ cs) (suc d) cur req e = ground (arith, scan-first_free cs d (cur + 1) req)

scan-number_of :
    (cs : List Chunk) (cur req : ℕ) → answer (scan get_num cs cur req) ≡ number_of cur cs req
unfolding scan number_of
scan-number_of [] cur req = refl
scan-number_of (c ∷ cs) cur req = ground (arith, scan-number_of cs (cur + 1) req)

-- On a map whose entries end below the last page of the address space and whose chunks are fewer
-- than 2^32, counted from the request on in the address mode, `mmap_read` returns, and its answer is that of the list of
-- chunks: in the number mode one more than the position of the first chunk that holds the
-- request, in the address mode the first chunk from the request's position on that is not
-- reserved, 0 where there is none and in every other mode.
pub mmap_read-read_chunks :
    (area : List MmapEntry) (request mode : ℕ)
    → AllInRange area
    → length (chunks area) < 2 ^ 32
    → Room mode request (length (chunks area))
    → mmap_read area request mode ≡ some (read_chunks (chunks area) request mode)
unfolding mmap_read read_chunks
mmap_read-read_chunks area request mode range bound room = elim (dec_mode mode) [
  | inl num ↦
      rw
        (
          num,
          entry_loop-scan area 0 0 request range (omega arith) (inl refl),
          scan-number_of (chunks area) 0 request,
        )
        refl
  | inr rest ↦ elim rest [
    | inl addr ↦
        rw
          (
            addr,
            entry_loop-scan area 1 0 request range (omega arith) (rw addr at room),
            scan-first_free (chunks area) request 0 request (omega arith),
          )
          refl
    | inr other ↦ ground arith
  ]
]
  where
    dec_mode : (m : ℕ) → (m ≡ 0) ⊎ ((m ≡ 1) ⊎ ((m ≢ 0) × (m ≢ 1)))
    dec_mode m = grind arith
