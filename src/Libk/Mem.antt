-- ===== src/Libk/Mem.antt =====
-- `memcpyk` (src/libk/mem.c): bytes copied one by one, upwards. The arguments stand as the code
-- has them, the source first.
use utero_archive.Base.Memory.{Memory, poke}
use utero_archive.Base.{ℕ, zero, suc, ◌+◌, ◌-◌, ◌≤◌, ◌≡◌, ◌⊎◌, ◌&&◌, arith, ltb, leb, if◌then◌else◌}

memcpyk_loop : ℕ → ℕ → ℕ → ℕ → Memory → Memory
memcpyk_loop zero i src dest mem = mem
memcpyk_loop (suc left) i src dest mem =
    memcpyk_loop left (i + 1) src dest (poke mem (dest + i) (mem (src + i)))

pub memcpyk : ℕ → ℕ → ℕ → Memory → Memory
memcpyk src dest bytes mem = memcpyk_loop bytes 0 src dest mem

-- The part of the copy that is still to be done from `i` on.
memcpyk_loop_lem :
    (left i src dest : ℕ) (mem : Memory) (x : ℕ)
    → (dest ≤ src) ⊎ (src + i + left ≤ dest)
    → memcpyk_loop left i src dest mem x
      ≡ (if leb (dest + i) x && ltb x (dest + i + left) then mem (x - dest + src) else mem x)
unfolding memcpyk_loop
memcpyk_loop_lem zero i src dest mem x apart = ground arith
memcpyk_loop_lem (suc left) i src dest mem x apart =
    ground (arith, memcpyk_loop_lem left (i + 1) src dest (poke mem (dest + i) (mem (src + i))) x)

-- Where the destination does not start inside the source, each byte of the destination becomes the
-- source's, and no other byte changes.
pub memcpyk_lem :
    (src dest bytes : ℕ) (mem : Memory) (x : ℕ)
    → (dest ≤ src) ⊎ (src + bytes ≤ dest)
    → memcpyk src dest bytes mem x
      ≡ (if leb dest x && ltb x (dest + bytes) then mem (x - dest + src) else mem x)
unfolding memcpyk
memcpyk_lem src dest bytes mem x apart = ground (arith, memcpyk_loop_lem bytes 0 src dest mem x)
