-- ===== src/Asm/Boot.antt =====
-- The start in 32-bit mode (asm/boot.asm), up to the jump to 64-bit mode: the checks, the message of
-- a check that fails, the page tables and the registers that turn paging on. What the processor
-- answers is a record of parameters, and so is the place of the tables, which section .bss puts one
-- after the other. The stack of this code is not part of memory.
pub mod Walk
pub mod Tables
pub mod Identity
pub mod Seen
pub mod Outcomes
use utero_archive.Base.{
  ℕ, zero, suc, ◌+◌, ◌-◌, ◌*◌, ◌/◌, ◌%◌, ◌^◌, ◌≤◌, ◌<◌, ◌≡◌, ◌≢◌, ◌⊎◌, ◌↔◌, inl, inr, refl, sym, ap,
  ap₂, ◌∙◌, subst, arith, Bool, ◌||◌, ◌&&◌, not, true, false, ◌==◌, ltb, leb, if◌then◌else◌, Option,
  some, none, List, [], ◌∷◌, ◌++◌, length, get_or, get_elem?, Bool-cases, u8, u16, u32, u64,
  bit_and, bit_or,
}
use utero_archive.Base.Memory.{Memory, store, poke}
use utero_archive.Core.Boot.{multiboot2_magic_value}

-- The flags at the start, what `popfd` and `pushfd` make of a word, and two answers of `cpuid`: `eax`
-- of leaf 0x80000000 and `edx` of leaf 0x80000001.
pub record Processor : Type 0 where
  pub flags : ℕ
  pub popped : ℕ → ℕ
  pub largest_leaf : ℕ
  pub features : ℕ

pub record Boot : Type 0 where
  pub memory : Memory
  pub edi : ℕ
  pub esi : ℕ
  pub cr0 : ℕ
  pub cr3 : ℕ
  pub cr4 : ℕ
  pub efer : ℕ

-- A check's error code, if it fails.
unfoldable pub check_multiboot : ℕ → Option ℕ
check_multiboot eax = if eax == multiboot2_magic_value then none else some b'0'

-- `xor eax, 1 << 21`.
unfoldable pub flip_id : ℕ → ℕ
flip_id eax = if eax / 2 ^ 21 % 2 == 1 then eax - 2 ^ 21 else eax + 2 ^ 21

unfoldable pub check_cpuid : Processor → Option ℕ
check_cpuid p = if p.popped (flip_id p.flags) == p.flags then some b'1' else none

unfoldable pub check_long_mode : Processor → Option ℕ
check_long_mode p =
    if ltb p.largest_leaf 0x80000001
    then some b'2'
    else if p.features / 2 ^ 29 % 2 == 1
    then none
    else some b'2'

unfoldable pub error : ℕ → Memory → Memory
error al mem =
    let m1 = store 4 mem 0xb8000 0x4f524f45 in
    let m2 = store 4 m1 0xb8004 0x4f3a4f52 in
    let m3 = store 4 m2 0xb8008 0x4f204f20 in poke m3 0xb800a al

abbrev pub p3_table : ℕ → ℕ
p3_table p4 = p4 + 4096

abbrev pub p2_table : ℕ → ℕ
p2_table p4 = p4 + 8192

-- The entries from `ecx` on; `left` bounds the rounds, and `none` means that they ran out.
unfoldable pub map_p2_table : ℕ → ℕ → ℕ → Memory → Option Memory
map_p2_table zero p2 ecx mem = none
map_p2_table (suc left) p2 ecx mem =
    let mem' = store 4 mem (p2 + ecx * 8) (bit_or (u32 (0x200000 * ecx)) 0b10000011) in
    let rest = map_p2_table left p2 (ecx + 1) mem' in if ecx + 1 == 512 then some mem' else rest

unfoldable pub set_up_page_tables : ℕ → ℕ → Memory → Option Memory
set_up_page_tables fuel p4 mem =
    let m1 = store 4 mem (p4 + 511 * 8) (bit_or p4 0b11) in
    let m2 = store 4 m1 p4 (bit_or (p3_table p4) 0b11) in
    let m3 = store 4 m2 (p3_table p4) (bit_or (p2_table p4) 0b11) in
    map_p2_table fuel (p2_table p4) 0 m3

unfoldable pub enable_paging : ℕ → Boot → Boot
enable_paging p4 s = record s {
  cr3 = p4;
  cr4 = bit_or s.cr4 (2 ^ 5);
  efer = bit_or s.efer (2 ^ 8);
  cr0 = bit_or (bit_or s.cr0 (2 ^ 31)) (2 ^ 16);
}

-- How the start ends: in 64-bit mode, halted with an error code on the display, or in the loop over
-- the table when its rounds ran out.
pub data Outcome : Type 0 where
  long_mode : Boot → Outcome
  failed : ℕ → Boot → Outcome
  stuck : Outcome

abbrev pub fail : ℕ → Boot → Outcome
fail al s = failed al (record s { memory = error al s.memory })

unfoldable pub start : ℕ → ℕ → Processor → ℕ → ℕ → Boot → Outcome
start fuel p4 p eax ebx s =
    let s1 = record s { esi = ebx; edi = eax } in
    elim (check_multiboot eax) [
      | some al ↦ fail al s1
      | none ↦ elim (check_cpuid p) [
        | some al ↦ fail al s1
        | none ↦ elim (check_long_mode p) [
          | some al ↦ fail al s1
          | none ↦ elim (set_up_page_tables fuel p4 s.memory) [
            | none ↦ stuck
            | some mem ↦ long_mode (enable_paging p4 (record s1 { memory = mem }))
          ]
        ]
      ]
    ]
