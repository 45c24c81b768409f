-- ===== src/Asm/Boot/Outcomes.antt =====
-- How the start in 32-bit mode ends.
use utero_archive.Base.{
  ℕ, ◌+◌, ◌*◌, ◌/◌, ◌%◌, ◌^◌, ◌≤◌, ◌<◌, ◌≡◌, ◌≢◌, ◌⊎◌, refl, ap, ◌∙◌, arith, true, false, ◌==◌, ltb,
  some, none, [], ◌∷◌, ◌++◌, map, bit_or,
}
use Prim.Native.Nat.{max}
use utero_archive.Base.Bits.{or_bit}
use utero_archive.Base.Text.{codes}
use utero_archive.Base.Memory.{Memory, poke, load, store, store_outside}
use utero_archive.Core.Boot.{multiboot2_magic_value}
use utero_archive.Asm.Boot.{
  Processor, Boot, check_multiboot, flip_id, check_cpuid, check_long_mode, error, enable_paging,
  Outcome, long_mode, failed, fail, start,
}
use utero_archive.Asm.Boot.Walk.{cpu_walk, Tables}
use utero_archive.Asm.Boot.Identity.{cpu_walk_identity, cpu_walk_unmapped}
use utero_archive.Asm.Boot.Tables.{IsRoom, set_up_page_tables-SetUp}

-- A processor with 64-bit mode, by the checks of the manuals.
pub record IsCapable (p : Processor) : Type 0 where
  pub flips : p.popped (flip_id p.flags) ≢ p.flags
  pub leaf : 0x80000001 ≤ p.largest_leaf
  pub feature : p.features / 2 ^ 29 % 2 ≡ 1

-- What the first instruction in 64-bit mode finds.
pub record Entered (p4 eax ebx : ℕ) (before : Memory) (result : Outcome) : Type 0 where
  pub after : Boot
  pub returns : result ≡ long_mode after
  pub magic : after.edi ≡ eax
  pub information : after.esi ≡ ebx
  pub root : after.cr3 ≡ p4
  pub paging : after.cr0 / 2 ^ 31 % 2 ≡ 1
  pub write_protect : after.cr0 / 2 ^ 16 % 2 ≡ 1
  pub pae : after.cr4 / 2 ^ 5 % 2 ≡ 1
  pub long_mode_enable : after.efer / 2 ^ 8 % 2 ≡ 1
  pub identity : (v : ℕ) → v < 2 ^ 30 → cpu_walk after.memory p4 v ≡ some v
  pub unmapped : (v : ℕ) → 2 ^ 30 ≤ v → v < 511 * 2 ^ 39 → cpu_walk after.memory p4 v ≡ none
  pub tables : Tables p4 before after.memory

max_one : (a b : ℕ) → a < 2 → b ≡ 1 → max a b ≡ 1
max_one a b small e = ground arith

max_one_left : (a b : ℕ) → a ≡ 1 → b < 2 → max a b ≡ 1
max_one_left a b e small = ground arith

-- Called by a multiboot2 loader, on a capable processor and with empty tables at an aligned address
-- below 4 GiB, the start gets to 64-bit mode, with 512 rounds for the loop: the magic number and
-- the information's address are passed on, paging, write protection, 64-bit entries and long mode
-- are on, each address below 1 GiB is translated to itself and none from there to the window of the
-- tables is translated, and memory has changed in the three tables alone.
pub start-Entered :
    (fuel p4 : ℕ) (p : Processor) (ebx : ℕ) (s : Boot)
    → 512 ≤ fuel
    → IsRoom p4 s.memory
    → IsCapable p
    → Entered p4 multiboot2_magic_value ebx s.memory (start fuel p4 p multiboot2_magic_value ebx s)
unfolding start check_multiboot check_cpuid check_long_mode enable_paging
start-Entered fuel p4 p ebx s enough ok capable =
    let u = set_up_page_tables-SetUp fuel p4 s.memory enough ok in
    let flips : (p.popped (flip_id p.flags) == p.flags) ≡ false = ground (arith, capable.flips) in
    let leaf : ltb p.largest_leaf 0x80000001 ≡ false = ground (arith, capable.leaf) in
    record {
      after =
          enable_paging p4 (record s { esi = ebx; edi = multiboot2_magic_value; memory = u.mem });
      returns = rw (flips, leaf, capable.feature, u.returns, start) refl;
      magic = refl;
      information = refl;
      root = refl;
      paging =
          or_bit 31 (bit_or s.cr0 (2 ^ 31)) (2 ^ 16)
          ∙ max_one_left _ 0 (or_bit 31 s.cr0 (2 ^ 31) ∙ max_one _ 1 (omega arith) refl)
              (omega arith);
      write_protect = or_bit 16 (bit_or s.cr0 (2 ^ 31)) (2 ^ 16) ∙ max_one _ 1 (omega arith) refl;
      pae = or_bit 5 s.cr4 (2 ^ 5) ∙ max_one _ 1 (omega arith) refl;
      long_mode_enable = or_bit 8 s.efer (2 ^ 8) ∙ max_one _ 1 (omega arith) refl;
      identity = cpu_walk_identity p4 s.memory u.mem ok.aligned ok.room u.tables;
      unmapped = cpu_walk_unmapped p4 s.memory u.mem ok.aligned ok.room u.tables;
      tables = u.tables;
    }

-- The check that fails first, with its error code.
pub data FirstFailure (eax : ℕ) (p : Processor) : ℕ → Type 0 where
  no_multiboot : eax ≢ multiboot2_magic_value → FirstFailure eax p b'0'
  no_cpuid :
      eax ≡ multiboot2_magic_value → p.popped (flip_id p.flags) ≡ p.flags → FirstFailure eax p b'1'
  no_long_mode :
      eax ≡ multiboot2_magic_value
      → p.popped (flip_id p.flags) ≢ p.flags
      → (p.largest_leaf < 0x80000001) ⊎ (p.features / 2 ^ 29 % 2 ≡ 0)
      → FirstFailure eax p b'2'

-- The display's first cells, and the memory off them.
pub record ShowsError (al : ℕ) (before mem : Memory) : Type 0 where
  pub cells :
      map (load 2 mem) (0xb8000 ∷ 0xb8002 ∷ 0xb8004 ∷ 0xb8006 ∷ 0xb8008 ∷ 0xb800a ∷ [])
      ≡ map (λ c. 0x4f00 + c) (codes "ERR: " ++ (al ∷ []))
  pub outside : (x : ℕ) → (x < 0xb8000) ⊎ (0xb800c ≤ x) → mem x ≡ before x

poke_apart : (mem : Memory) (a v x : ℕ) → x ≢ a → poke mem a v x ≡ mem x
poke_apart mem a v x other = let apart : (x == a) ≡ false = ground (arith, other) in rw apart refl

error_outside :
    (al : ℕ) (mem : Memory) (x : ℕ) → (x < 0xb8000) ⊎ (0xb800c ≤ x) → error al mem x ≡ mem x
unfolding error
error_outside al mem x off =
    let m1 = store 4 mem 0xb8000 0x4f524f45 in
    let m2 = store 4 m1 0xb8004 0x4f3a4f52 in
    let m3 = store 4 m2 0xb8008 0x4f204f20 in
    poke_apart m3 0xb800a al x (λ e. absurd (omega arith))
    ∙ store_outside 4 m2 0xb8008 0x4f204f20 x (omega arith)
    ∙ store_outside 4 m1 0xb8004 0x4f3a4f52 x (omega arith)
    ∙ store_outside 4 mem 0xb8000 0x4f524f45 x (omega arith)

error-ShowsError : (al : ℕ) (mem : Memory) → al < 256 → ShowsError al mem (error al mem)
unfolding error load store
error-ShowsError al mem small =
    let byte : al % 256 ≡ al = omega arith in
    record {
      cells = ap (λ (b : ℕ). 0x4f45 ∷ 0x4f52 ∷ 0x4f52 ∷ 0x4f3a ∷ 0x4f20 ∷ (0x4f00 + b) ∷ []) byte;
      outside = error_outside al mem;
    }

pub record Failed (al : ℕ) (before : Memory) (result : Outcome) : Type 0 where
  pub after : Boot
  pub returns : result ≡ failed al after
  pub shows : ShowsError al before after.memory

error-Failed :
    (al eax ebx : ℕ) (s : Boot) (result : Outcome)
    → al < 256
    → result ≡ fail al (record s { esi = ebx; edi = eax })
    → Failed al s.memory result
error-Failed al eax ebx s result small e = record {
  after = record s { memory = error al s.memory; esi = ebx; edi = eax };
  returns = e;
  shows = error-ShowsError al s.memory small;
}

check_long_mode_refused :
    (p : Processor)
    → (p.largest_leaf < 0x80000001) ⊎ (p.features / 2 ^ 29 % 2 ≡ 0)
    → check_long_mode p ≡ some b'2'
unfolding check_long_mode
check_long_mode_refused p old = ground arith

-- If the magic number is wrong, the flag of cpuid cannot be flipped, or there is no long mode, the
-- start halts with the text ERR and the number of the check that failed first on the display, 0, 1
-- or 2, and no other memory has changed.
pub start-Failed :
    (fuel p4 : ℕ) (p : Processor) (eax ebx al : ℕ) (s : Boot)
    → FirstFailure eax p al
    → Failed al s.memory (start fuel p4 p eax ebx s)
unfolding start check_multiboot check_cpuid
start-Failed fuel p4 p eax ebx al s (no_multiboot wrong) =
    let magic : (eax == multiboot2_magic_value) ≡ false = ground (arith, wrong) in
    error-Failed b'0' eax ebx s _ (omega arith) (rw (magic, start) refl)
start-Failed fuel p4 p eax ebx al s (no_cpuid right same) =
    let magic : (eax == multiboot2_magic_value) ≡ true = ground arith in
    let stays : (p.popped (flip_id p.flags) == p.flags) ≡ true = ground arith in
    error-Failed b'1' eax ebx s _ (omega arith) (rw (magic, stays, start) refl)
start-Failed fuel p4 p eax ebx al s (no_long_mode right flips old) =
    let magic : (eax == multiboot2_magic_value) ≡ true = ground arith in
    let moves : (p.popped (flip_id p.flags) == p.flags) ≡ false = ground (arith, flips) in
    error-Failed b'2' eax ebx s _ (omega arith)
      (rw (magic, moves, start, check_long_mode_refused p old) refl)
