-- ===== src/Kernel/Start/Memory.antt =====
-- The start reads the boot loader's information from memory that it has already written the display
-- in, and the date from the clock.
use utero_archive.Base.{
  ℕ, ◌+◌, ◌^◌, ◌≤◌, ◌<◌, ◌≡◌, refl, ap, ◌∙◌, arith, Option, some, List, [], ◌∷◌, length,
}
use utero_archive.Base.Memory.{Memory, load-lt}
use utero_archive.Core.Cmos.{Rtc, convert, from_bcd, to_24_hours, cmos_read_rtc}
use utero_archive.Core.Cmos.Reading.{
  Round, IsBytes, IsRound, AllRounds, SettlesAt, script, cmos_read_rtc-Reads,
}
use utero_archive.Core.Boot.{tag_mmap, add_section, read_multiboot_info, next_tag}
use utero_archive.Core.Boot.Tags.{first_of_type}
use utero_archive.Core.Boot.Sections.{all_sections, add_all, no_areas, areas_of}
use utero_archive.Core.Boot.Away.{IsInformation, read-Away, find-Away}
use utero_archive.Mmu.Mmap.{ReservedAreas}
use utero_archive.Mmu.Area.{mmu_init, area_entry_size, first_entry}
use utero_archive.Mmu.Area.Entries.{entry_list}
use utero_archive.Mmu.Area.Away.{IsArea, area-Away}
use utero_archive.Drivers.Screen.Within.{Within}
use utero_archive.Kernel.State.{Build, Kernel, ◌>>=◌, given, on_hardware}
use utero_archive.Kernel.Start.{start_memory}
use utero_archive.Kernel.Start.Printing.{IsAreas, IsTime}
use utero_archive.Kernel.Runs.{Runs}

-- What the boot loader left in memory, with a memory map, and fuel for both.
pub record IsBoot (b : Build) (mem : Memory) (mbi stop tag n : ℕ) (ts : List ℕ) : Type 0 where
  pub information : IsInformation mem mbi ts stop
  pub address : mbi < 2 ^ 64
  pub found : first_of_type mem tag_mmap ts ≡ tag
  pub area : IsArea mem tag n
  pub tags_fuel : length ts < b.fuel
  pub area_fuel : n < b.fuel

-- A clock that settles within the bounds of the build.
pub record IsClock (b : Build) (first : Round) (rounds : List Round) (v : Rtc) (reg_b : ℕ)
    : Type 0 where
  pub round : IsRound b.waits first
  pub all : AllRounds b.waits rounds
  pub settles : SettlesAt first.rtc rounds v
  pub short : length rounds ≤ b.fuel
  pub byte : reg_b < 256

abbrev IsBounded : ReservedAreas → Type 0
IsBounded r = (r.kernel_start < 2 ^ 64) × (r.kernel_end < 2 ^ 64) × (r.multiboot_start < 2 ^ 64)

add_section-IsBounded :
    (mem : Memory) (e : ℕ) (r : ReservedAreas) → IsBounded r → IsBounded (add_section mem e r)
unfolding add_section
add_section-IsBounded mem e r (s, t, u) = ground (arith, load-lt 8 mem (e + 16))

add_all-IsBounded :
    (mem : Memory) (es : List ℕ) (r : ReservedAreas) → IsBounded r → IsBounded (add_all mem es r)
unfolding add_all
add_all-IsBounded mem [] r h = h
add_all-IsBounded mem (e ∷ es) r h =
    add_all-IsBounded mem es (add_section mem e r) (add_section-IsBounded mem e r h)

pub areas_of-IsAreas :
    {b : Build} {mem : Memory} {mbi stop tag n : ℕ} {ts : List ℕ}
    → IsBoot b mem mbi stop tag n ts
    → IsAreas (areas_of mem mbi ts stop)
unfolding areas_of next_tag
areas_of-IsAreas {mem = mem} {mbi = mbi} {ts = ts} boot =
    let h =
      add_all-IsBounded mem (all_sections mem ts) (no_areas mbi)
        (omega arith, omega arith, boot.address) in
    record {
      kernel_start = h.0;
      kernel_end = h.1;
      multiboot_start = h.2;
      multiboot_end = omega arith;
    }

SettlesAt-IsBytes :
    (waits : ℕ) (rs : List Round) (last v : Rtc)
    → IsBytes last
    → AllRounds waits rs
    → SettlesAt last rs v
    → IsBytes v
SettlesAt-IsBytes waits [] last v bytes all s = absurd s
SettlesAt-IsBytes waits (r ∷ []) last v bytes all (same, e) = rw e bytes
SettlesAt-IsBytes waits (r ∷ r' ∷ rs) last v bytes (one, all) (differs, s) =
    SettlesAt-IsBytes waits (r' ∷ rs) r.rtc v one.bytes all s

pub convert-IsTime : (reg_b : ℕ) (v : Rtc) → IsBytes v → IsTime (convert reg_b v)
unfolding convert from_bcd to_24_hours
convert-IsTime reg_b v bytes = ground arith

pub given-Runs :
    {A : Type 0} {i : ℕ} {mem : Memory} {input : List ℕ} (f : Kernel → Option A) (a : A)
    (k : Kernel)
    → f k ≡ some a
    → Within i mem input k.screen
    → k.tick < 2 ^ 32
    → Runs i mem input a k (λ k'. given (f k') k') k
given-Runs f a k e w small = record {
  screen = k.screen;
  tick = k.tick;
  returns = rw e refl;
  within = w;
  small = small;
}

module _ {i : ℕ} {mem : Memory} {input : List ℕ} (b : Build) {mbi stop tag n : ℕ} {ts : List ℕ}
    (boot : IsBoot b mem mbi stop tag n ts) (k : Kernel) (w : Within i mem input k.screen)
    (small : k.tick < 2 ^ 32) where
  pub read-Runs :
      Runs i mem input
        (areas_of mem mbi ts stop)
        k
        (λ k'. given (read_multiboot_info b.fuel k'.screen.hardware.memory mbi) k')
        k
  read-Runs =
      given-Runs (λ k'. read_multiboot_info b.fuel k'.screen.hardware.memory mbi)
        (areas_of mem mbi ts stop) k (read-Away w.memory boot.information boot.tags_fuel) w small

  pub memory-Runs :
      (r : ReservedAreas)
      → Runs i mem input tt
          (record k {
            mmap = mmu_init (entry_list n mem (area_entry_size mem tag) (first_entry tag)) r;
          })
          (start_memory b mbi r)
          k
  unfolding start_memory
  memory-Runs r =
      let found =
        find-Away w.memory tag_mmap boot.information boot.tags_fuel ∙ ap some boot.found in
      let area = area-Away w.memory n b.fuel tag boot.area boot.area_fuel in
      record {
        screen = k.screen;
        tick = k.tick;
        returns = rw (found, ◌>>=◌, area) refl;
        within = w;
        small = small;
      }

pub clock-Runs :
    {i : ℕ} {mem : Memory} {rest : List ℕ} {b : Build} {first : Round} {rounds : List Round}
    {v : Rtc} {reg_b : ℕ} (k : Kernel)
    → IsClock b first rounds v reg_b
    → Within i mem (script (first ∷ rounds) (reg_b ∷ rest)) k.screen
    → k.tick < 2 ^ 32
    → Runs i mem rest (convert reg_b v) k (on_hardware (cmos_read_rtc b.waits b.fuel)) k
clock-Runs {rest = rest} {b = b} {first = first} {rounds = rounds} {v = v} {reg_b = reg_b} k c w
      small =
    let hw = k.screen.hardware in
    let (log, e) =
      cmos_read_rtc-Reads b.waits b.fuel first rounds v reg_b rest c.round c.all c.settles c.short
        c.byte hw.memory hw.log in
    let asked : cmos_read_rtc b.waits b.fuel hw
        ≡ some (convert reg_b v, record { memory = hw.memory; input = rest; log = log }) =
      ap (λ input. cmos_read_rtc b.waits b.fuel (record hw { input = input })) w.unread ∙ e in
    record {
      screen = record (k.screen) {
        hardware = record { memory = hw.memory; input = rest; log = log };
      };
      tick = k.tick;
      returns = rw asked refl;
      within = record {
        buffer = w.buffer;
        column = w.column;
        placed = w.placed;
        memory = w.memory;
        unread = refl;
      };
      small = small;
    }

pub clock-IsTime :
    {b : Build} {first : Round} {rounds : List Round} {v : Rtc} {reg_b : ℕ}
    → IsClock b first rounds v reg_b
    → IsTime (convert reg_b v)
clock-IsTime {b = b} {first = first} {rounds = rounds} {v = v} {reg_b = reg_b} c =
    convert-IsTime reg_b v
      (SettlesAt-IsBytes b.waits rounds first.rtc v c.round.bytes c.all c.settles)
