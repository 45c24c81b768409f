-- ===== src/Asm/Boot/Identity.antt =====
-- The addresses that the tables of the start translate.
use utero_archive.Base.{
  ℕ, ◌+◌, ◌*◌, ◌/◌, ◌%◌, ◌^◌, ◌≤◌, ◌<◌, ◌≡◌, inl, inr, refl, ap, ◌∙◌, arith, true, false, ltb, some,
  none, Bool-cases, u64,
}
use utero_archive.Base.Memory.{Memory, load}
use utero_archive.Mmu.Paging.{p4_table, present, huge_page}
use utero_archive.Asm.Boot.{p3_table, p2_table}
use utero_archive.Asm.Boot.Walk.{entry_frame, entry_of, in_page, cpu_walk, Tables}

abbrev IsTable : ℕ → Type 0
IsTable table = (table % 4096 ≡ 0) × (table < 2 ^ 52)

-- An entry that leads to a table.
module _ (table : ℕ) (aligned : table % 4096 ≡ 0) where
  pub present_link : present (table + 3) ≡ true
  present_link = ground arith

  pub huge_page_link : huge_page (table + 3) ≡ false
  huge_page_link = ground arith

  entry_frame_link : table < 2 ^ 52 → entry_frame (table + 3) ≡ table
  entry_frame_link small = omega arith

pub present_huge : (i : ℕ) → present (0x200000 * i + 131) ≡ true
present_huge i = ground arith

pub huge_page_huge : (i : ℕ) → huge_page (0x200000 * i + 131) ≡ true
huge_page_huge i = ground arith

in_page_huge : (v : ℕ) → v < 2 ^ 30 → in_page (0x200000 * (v / 2 ^ 21) + 131) (2 ^ 21) v ≡ v
in_page_huge v low = omega arith

module _ (p4 : ℕ) (before mem : Memory) (aligned : p4 % 4096 ≡ 0) (room : p4 + 12288 ≤ 2 ^ 32)
    (t : Tables p4 before mem) where
  aligned3 : p3_table p4 % 4096 ≡ 0
  aligned3 = omega arith

  aligned2 : p2_table p4 % 4096 ≡ 0
  aligned2 = omega arith

  pub cpu_walk_identity : (v : ℕ) → v < 2 ^ 30 → cpu_walk mem p4 v ≡ some v
  unfolding cpu_walk
  cpu_walk_identity v low =
      let i4 : p4 + 8 * (v / 2 ^ 39 % 512) ≡ p4 = omega arith in
      let i3 : p3_table p4 + 8 * (v / 2 ^ 30 % 512) ≡ p3_table p4 = omega arith in
      let i2 : v / 2 ^ 21 % 512 ≡ v / 2 ^ 21 = omega arith in
      rw
        (
          i4,
          t.first,
          entry_frame_link (p3_table p4) aligned3 (omega arith),
          i3,
          t.only,
          entry_frame_link (p2_table p4) aligned2 (omega arith),
          i2,
          t.huge (v / 2 ^ 21) (omega arith),
          present_link (p3_table p4) aligned3,
          present_link (p2_table p4) aligned2,
          huge_page_link (p2_table p4) aligned2,
          present_huge (v / 2 ^ 21),
          huge_page_huge (v / 2 ^ 21),
        )
        (ap some (in_page_huge v low))

  pub cpu_walk_unmapped : (v : ℕ) → 2 ^ 30 ≤ v → v < 511 * 2 ^ 39 → cpu_walk mem p4 v ≡ none
  unfolding cpu_walk
  cpu_walk_unmapped v lo hi = elim (Bool-cases (ltb v (2 ^ 39))) [
    | inl inner ↦
        let i4 : p4 + 8 * (v / 2 ^ 39 % 512) ≡ p4 = ground arith in
        let i3 : v / 2 ^ 30 % 512 ≡ v / 2 ^ 30 = ground arith in
        rw
          (
            i4,
            t.first,
            entry_frame_link (p3_table p4) aligned3 (omega arith),
            i3,
            t.above (v / 2 ^ 30) (omega arith) (ground arith),
            present_link (p3_table p4) aligned3,
          )
          refl
    | inr outer ↦
        let i4 : v / 2 ^ 39 % 512 ≡ v / 2 ^ 39 = omega arith in
        rw (i4, t.between (v / 2 ^ 39) (ground arith) (omega arith)) refl
  ]

  cpu_walk_links :
      (v t3 t2 t1 t0 : ℕ)
      → IsTable t3
      → IsTable t2
      → IsTable t1
      → IsTable t0
      → entry_of mem p4 (2 ^ 39) v ≡ t3 + 3
      → entry_of mem t3 (2 ^ 30) v ≡ t2 + 3
      → entry_of mem t2 (2 ^ 21) v ≡ t1 + 3
      → entry_of mem t1 (2 ^ 12) v ≡ t0 + 3
      → cpu_walk mem p4 v ≡ some (t0 + v % 4096)
  unfolding cpu_walk
  cpu_walk_links v t3 t2 t1 t0 (a3, s3) (a2, s2) (a1, s1) (a0, s0) e4 e3 e2 e1 =
      let same : t0 / 4096 * 4096 ≡ t0 = omega arith in
      rw
        (
          e4,
          entry_frame_link t3 a3 s3,
          e3,
          entry_frame_link t2 a2 s2,
          e2,
          entry_frame_link t1 a1 s1,
          e1,
          entry_frame_link t0 a0 s0,
          present_link t3 a3,
          present_link t2 a2,
          huge_page_link t2 a2,
          present_link t1 a1,
          huge_page_link t1 a1,
          present_link t0 a0,
          same,
        )
        refl

  all_fit : IsTable p4 × IsTable (p3_table p4) × IsTable (p2_table p4)
  all_fit = ((aligned, omega arith), (aligned3, omega arith), (aligned2, omega arith))

  -- The last entry of the first table leads back to it.
  pub cpu_walk_window :
      (w : ℕ)
      → w < 4096
      → (cpu_walk mem p4 (p4_table + w) ≡ some (p4 + w))
        × (cpu_walk mem p4 (u64 (p4_table * 2 ^ 9) + w) ≡ some (p3_table p4 + w))
        × (cpu_walk mem p4 (u64 (u64 (p4_table * 2 ^ 9) * 2 ^ 9) + w) ≡ some (p2_table p4 + w))
  cpu_walk_window w low =
      let (at4, at3, at2) = all_fit in
      let back : (v size : ℕ) → v / size % 512 ≡ 511 → entry_of mem p4 size v ≡ p4 + 3 =
        λ v size e. ap (λ i. load 8 mem (p4 + 8 * i)) e ∙ t.last in
      let down : (v size : ℕ) → v / size % 512 ≡ 0 → entry_of mem p4 size v ≡ p3_table p4 + 3 =
        λ v size e. ap (λ i. load 8 mem (p4 + 8 * i)) e ∙ ap (load 8 mem) (omega arith) ∙ t.first in
      let down3 : (v size : ℕ)
          → v / size % 512 ≡ 0
          → entry_of mem (p3_table p4) size v ≡ p2_table p4 + 3 =
        λ v size e.
          ap (λ i. load 8 mem (p3_table p4 + 8 * i)) e ∙ ap (load 8 mem) (omega arith) ∙ t.only in
      let v4 = p4_table + w in
      let v3 = u64 (p4_table * 2 ^ 9) + w in
      let v2 = u64 (u64 (p4_table * 2 ^ 9) * 2 ^ 9) + w in
      (
        cpu_walk_links v4 p4 p4 p4 p4 at4 at4 at4 at4 (back v4 (2 ^ 39) (omega arith))
              (back v4 (2 ^ 30) (omega arith)) (back v4 (2 ^ 21) (omega arith))
              (back v4 (2 ^ 12) (omega arith))
            ∙ ap (λ x. some (p4 + x)) (omega arith),
        cpu_walk_links v3 p4 p4 p4 (p3_table p4) at4 at4 at4 at3 (back v3 (2 ^ 39) (omega arith))
              (back v3 (2 ^ 30) (omega arith)) (back v3 (2 ^ 21) (omega arith))
              (down v3 (2 ^ 12) (omega arith))
            ∙ ap (λ x. some (p3_table p4 + x)) (omega arith),
        cpu_walk_links v2 p4 p4 (p3_table p4) (p2_table p4) at4 at4 at3 at2
              (back v2 (2 ^ 39) (omega arith)) (back v2 (2 ^ 30) (omega arith))
              (down v2 (2 ^ 21) (omega arith)) (down3 v2 (2 ^ 12) (omega arith))
            ∙ ap (λ x. some (p2_table p4 + x)) (omega arith),
      )
