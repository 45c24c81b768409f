-- ===== src/Asm/Boot/Walk.antt =====
-- How the processor translates an address through the tables that the start sets up.
use utero_archive.Base.{
  ℕ, zero, suc, ◌+◌, ◌*◌, ◌/◌, ◌%◌, ◌^◌, ◌≤◌, ◌<◌, ◌≡◌, ◌⊎◌, inl, inr, refl, ap, ◌∙◌, arith, not,
  ◌==◌, if◌then◌else◌, Option, some, none, Bool-cases, u32, bit_or,
}
use utero_archive.Base.Bits.{or_low}
use utero_archive.Base.Memory.{
  Memory, load, store, store_outside, load-store, load-store_apart, load_cong,
}
use utero_archive.Mmu.Paging.{present, huge_page}
use utero_archive.Asm.Boot.{p3_table, p2_table, map_p2_table}

-- The address in an entry's bits 12 to 51.
abbrev pub entry_frame : ℕ → ℕ
entry_frame entry = entry / 4096 % 2 ^ 40 * 4096

abbrev pub entry_of : Memory → ℕ → ℕ → ℕ → ℕ
entry_of mem table size v = load 8 mem (table + 8 * (v / size % 512))

-- A present entry that is not for a huge page, by its table; and an address in a page.
abbrev pub in_page : ℕ → ℕ → ℕ → ℕ
in_page entry size v = entry_frame entry / size * size + v % size

-- The four levels of a 48-bit address; the last two can end in a huge page.
unfoldable pub cpu_walk : Memory → ℕ → ℕ → Option ℕ
cpu_walk mem p4 v =
    let e4 = entry_of mem p4 (2 ^ 39) v in
    let e3 = entry_of mem (entry_frame e4) (2 ^ 30) v in
    let e2 = entry_of mem (entry_frame e3) (2 ^ 21) v in
    let e1 = entry_of mem (entry_frame e2) (2 ^ 12) v in
    if not (present e4)
    then none
    else if not (present e3)
    then none
    else if huge_page e3
    then some (in_page e3 (2 ^ 30) v)
    else if not (present e2)
    then none
    else if huge_page e2
    then some (in_page e2 (2 ^ 21) v)
    else if present e1
    then some (in_page e1 (2 ^ 12) v)
    else none

-- The entries that the start leaves, the rest of the three tables empty.
pub record Tables (p4 : ℕ) (before mem : Memory) : Type 0 where
  pub first : load 8 mem p4 ≡ p3_table p4 + 3
  pub last : load 8 mem (p4 + 8 * 511) ≡ p4 + 3
  pub between : (i : ℕ) → 0 < i → i < 511 → load 8 mem (p4 + 8 * i) ≡ 0
  pub only : load 8 mem (p3_table p4) ≡ p2_table p4 + 3
  pub above : (i : ℕ) → 0 < i → i < 512 → load 8 mem (p3_table p4 + 8 * i) ≡ 0
  pub huge : (i : ℕ) → i < 512 → load 8 mem (p2_table p4 + 8 * i) ≡ 0x200000 * i + 131
  pub outside : (x : ℕ) → (x < p4) ⊎ (p4 + 12288 ≤ x) → mem x ≡ before x

pub or_three : (a : ℕ) → a % 4096 ≡ 0 → bit_or a 0b11 ≡ a + 3
or_three a aligned =
    let split : a ≡ a / 4096 * 2 ^ 12 = omega arith in
    ap (λ x. bit_or x 3) split ∙ or_low 12 (a / 4096) 3 (omega arith) ∙ omega arith

load_halves : (mem : Memory) (a : ℕ) → load 8 mem a ≡ load 4 mem (a + 4) * 2 ^ 32 + load 4 mem a
unfolding load
load_halves mem a =
    let same : a + 1 + 1 + 1 + 1 ≡ a + 4 = omega arith in rw (load, same) (omega arith)

-- A doubleword that is stored below zeros is the quadword.
pub load-store_half :
    (mem : Memory) (a v : ℕ) → v < 2 ^ 32 → load 4 mem (a + 4) ≡ 0 → load 8 (store 4 mem a v) a ≡ v
load-store_half mem a v small above = omega (
  arith,
  load_halves (store 4 mem a v) a,
  load-store 4 mem a v,
  load-store_apart 4 4 mem a (a + 4) v (inr (omega arith)),
  above,
)

-- The bytes of a range are zero.
abbrev pub IsZero : Memory → ℕ → ℕ → Type 0
IsZero mem a z = (x : ℕ) → a ≤ x → x < z → mem x ≡ 0

pub load-zeros : (n : ℕ) (mem : Memory) (a : ℕ) → IsZero mem a (a + n) → load n mem a ≡ 0
unfolding load
load-zeros zero mem a zeros = refl
load-zeros (suc n) mem a zeros =
    let first = zeros a (omega arith) (omega arith) in
    omega (arith, load-zeros n mem (a + 1) (λ x lo hi. zeros x (omega arith) (omega arith)), first)

-- What the rounds of the loop leave from the entry `ecx` on.
pub record Mapped (p2 ecx : ℕ) (before : Memory) (result : Option Memory) : Type 0 where
  pub mem : Memory
  pub returns : result ≡ some mem
  pub huge : (i : ℕ) → ecx ≤ i → i < 512 → load 8 mem (p2 + 8 * i) ≡ 0x200000 * i + 131
  pub outside : (x : ℕ) → (x < p2 + 8 * ecx) ⊎ (p2 + 4096 ≤ x) → mem x ≡ before x

huge_word : (i : ℕ) → i < 512 → bit_or (u32 (0x200000 * i)) 0b10000011 ≡ 0x200000 * i + 131
huge_word i low =
    let split : u32 (0x200000 * i) ≡ i * 2 ^ 21 = omega arith in
    ap (λ x. bit_or x 131) split ∙ or_low 21 i 131 (omega arith) ∙ omega arith

pub map_p2_table-Mapped :
    (left p2 ecx : ℕ) (mem : Memory)
    → ecx < 512
    → 512 ≤ ecx + left
    → IsZero mem (p2 + 8 * ecx) (p2 + 4096)
    → Mapped p2 ecx mem (map_p2_table left p2 ecx mem)
unfolding map_p2_table
map_p2_table-Mapped zero p2 ecx mem low enough zeros = absurd (omega arith)
map_p2_table-Mapped (suc left) p2 ecx mem low enough zeros =
    let at : p2 + 8 * ecx ≡ p2 + ecx * 8 = omega arith in
    let word = huge_word ecx low in
    let mem' = store 4 mem (p2 + ecx * 8) (bit_or (u32 (0x200000 * ecx)) 0b10000011) in
    let own : load 8 mem' (p2 + 8 * ecx) ≡ 0x200000 * ecx + 131 =
      rw (at, word)
        (load-store_half mem (p2 + ecx * 8) (0x200000 * ecx + 131) (omega arith)
          (load-zeros 4 mem (p2 + ecx * 8 + 4) (λ x lo hi. zeros x (omega arith) (omega arith)))) in
    let kept : (x : ℕ) → (x < p2 + 8 * ecx) ⊎ (p2 + 8 * ecx + 4 ≤ x) → mem' x ≡ mem x = λ x off.
      store_outside 4 mem (p2 + ecx * 8) (bit_or (u32 (0x200000 * ecx)) 0b10000011) x
        (omega arith) in
    elim (Bool-cases (ecx + 1 == 512)) [
      | inl final ↦ rw final (record {
        mem = mem';
        returns = refl;
        huge = λ i lo hi. let same : i ≡ ecx = ground arith in rw same own;
        outside = λ x off. kept x (omega arith);
      })
      | inr more ↦
          let rest =
            map_p2_table-Mapped left p2 (ecx + 1) mem' (ground arith) (omega arith)
              (λ x lo hi. kept x (inr (omega arith)) ∙ zeros x (omega arith) hi) in
          rw more (record {
            mem = rest.mem;
            returns = rest.returns;
            huge = λ i lo hi. elim (Bool-cases (i == ecx)) [
              | inl its ↦
                  let same : i ≡ ecx = ground arith in
                  rw same (
                    load_cong 8 rest.mem mem' (p2 + 8 * ecx)
                      (λ x from to. rest.outside x (omega arith))
                    ∙ own)
              | inr other ↦ rest.huge i (ground arith) hi
            ];
            outside = λ x off. rest.outside x (omega arith) ∙ kept x (omega arith);
          })
    ]
