-- ===== src/Asm/Boot/Tables.antt =====
-- The tables that the start leaves (asm/boot.asm).
use utero_archive.Base.{
  ℕ, ◌+◌, ◌*◌, ◌%◌, ◌^◌, ◌≤◌, ◌<◌, ◌≡◌, ◌⊎◌, inr, ◌∙◌, arith, Option, some, bit_or,
}
use utero_archive.Base.Memory.{Memory, load, store, store_outside, load_cong}
use utero_archive.Asm.Boot.{p3_table, p2_table, set_up_page_tables}
use utero_archive.Asm.Boot.Walk.{
  Tables, or_three, load-store_half, IsZero, load-zeros, map_p2_table-Mapped,
}

-- A place for the tables, empty as the loader leaves section .bss.
pub record IsRoom (p4 : ℕ) (mem : Memory) : Type 0 where
  pub aligned : p4 % 4096 ≡ 0
  pub room : p4 + 12288 ≤ 2 ^ 32
  pub zeros : IsZero mem p4 (p4 + 12288)

pub record SetUp (p4 : ℕ) (before : Memory) (result : Option Memory) : Type 0 where
  pub mem : Memory
  pub returns : result ≡ some mem
  pub tables : Tables p4 before mem

pub set_up_page_tables-SetUp :
    (fuel p4 : ℕ) (mem : Memory)
    → 512 ≤ fuel
    → IsRoom p4 mem
    → SetUp p4 mem (set_up_page_tables fuel p4 mem)
unfolding set_up_page_tables
set_up_page_tables-SetUp fuel p4 mem enough ok =
    let own = or_three p4 ok.aligned in
    let next = or_three (p3_table p4) (omega (arith, ok.aligned)) in
    let next2 = or_three (p2_table p4) (omega (arith, ok.aligned)) in
    let m1 = store 4 mem (p4 + 511 * 8) (bit_or p4 0b11) in
    let m2 = store 4 m1 p4 (bit_or (p3_table p4) 0b11) in
    let m3 = store 4 m2 (p3_table p4) (bit_or (p2_table p4) 0b11) in
    let k1 : (x : ℕ) → (x < p4 + 4088) ⊎ (p4 + 4092 ≤ x) → m1 x ≡ mem x =
      λ x off. store_outside 4 mem (p4 + 511 * 8) (bit_or p4 0b11) x (omega arith) in
    let k2 : (x : ℕ) → (x < p4) ⊎ (p4 + 4 ≤ x) → m2 x ≡ m1 x =
      λ x off. store_outside 4 m1 p4 (bit_or (p3_table p4) 0b11) x off in
    let k3 : (x : ℕ) → (x < p4 + 4096) ⊎ (p4 + 4100 ≤ x) → m3 x ≡ m2 x =
      λ x off. store_outside 4 m2 (p3_table p4) (bit_or (p2_table p4) 0b11) x (omega arith) in
    let z1 : (x : ℕ) → p4 ≤ x → x < p4 + 12288 → (x < p4 + 4088) ⊎ (p4 + 4092 ≤ x) → m1 x ≡ 0 =
      λ x lo hi off. k1 x off ∙ ok.zeros x lo hi in
    let z3 : (x : ℕ)
        → p4 + 4 ≤ x
        → x < p4 + 12288
        → (x < p4 + 4088) ⊎ (p4 + 4092 ≤ x)
        → (x < p4 + 4096) ⊎ (p4 + 4100 ≤ x)
        → m3 x ≡ 0 =
      λ x lo hi off off3. k3 x off3 ∙ k2 x (inr lo) ∙ z1 x (omega arith) hi off in
    let entries =
      map_p2_table-Mapped fuel (p2_table p4) 0 m3 (omega arith) (omega arith)
        (λ x lo hi. z3 x (omega arith) (omega arith) (omega arith) (omega arith)) in
    let first : load 8 m2 p4 ≡ p3_table p4 + 3 = rw next (
      load-store_half m1 p4 (p3_table p4 + 3) (omega (arith, ok.room))
        (load-zeros 4 m1 (p4 + 4) (λ x lo hi. z1 x (omega arith) (omega arith) (omega arith)))) in
    let last : load 8 m1 (p4 + 8 * 511) ≡ p4 + 3 = rw own (
      load-store_half mem (p4 + 511 * 8) (p4 + 3) (omega (arith, ok.room)) (
        load-zeros 4 mem (p4 + 511 * 8 + 4) (λ x lo hi. ok.zeros x (omega arith) (omega arith)))) in
    let only : load 8 m3 (p3_table p4) ≡ p2_table p4 + 3 = rw next2 (
      load-store_half m2 (p3_table p4) (p2_table p4 + 3) (omega (arith, ok.room)) (
        load-zeros 4 m2 (p3_table p4 + 4)
          (λ x lo hi. k2 x (omega arith) ∙ z1 x (omega arith) (omega arith) (omega arith)))) in
    record {
      mem = entries.mem;
      returns = entries.returns;
      tables = record {
        first =
            load_cong 8 entries.mem m2 p4
              (λ x lo hi. entries.outside x (omega arith) ∙ k3 x (omega arith))
            ∙ first;
        last =
            load_cong 8 entries.mem m1 (p4 + 8 * 511)
              (λ x lo hi. entries.outside x (omega arith) ∙ k3 x (omega arith) ∙ k2 x (omega arith))
            ∙ last;
        between = λ i lo hi. load-zeros 8 entries.mem (p4 + 8 * i) (λ x from to.
            entries.outside x (omega arith)
            ∙ z3 x (omega arith) (omega arith) (omega arith) (omega arith));
        only =
            load_cong 8 entries.mem m3 (p3_table p4) (λ x lo hi. entries.outside x (omega arith))
            ∙ only;
        above = λ i lo hi. load-zeros 8 entries.mem (p3_table p4 + 8 * i) (λ x from to.
            entries.outside x (omega arith)
            ∙ z3 x (omega arith) (omega arith) (omega arith) (omega arith));
        huge = λ i hi. entries.huge i (omega arith) hi;
        outside = λ x off.
            entries.outside x (omega arith)
            ∙ k3 x (omega arith)
            ∙ k2 x (omega arith)
            ∙ k1 x (omega arith);
      };
    }
