-- ===== src/Core/Cmos/Reading.antt =====
-- Reading the clock: the waits end, and what is returned is the first reading that the next one
-- repeats.
use native.Mathlib.Nat.{mod-eq_of_lt}
use utero_archive.Base.{
  ℕ, zero, suc, ◌/◌, ◌%◌, ◌≤◌, ◌<◌, ◌≡◌, ◌≢◌, refl, ◌∙◌, ap, sym, true, false, arith, ◌==◌, bit_and,
  u8, some, List, [], ◌∷◌, ◌++◌, length, Bool-cases, inl, inr,
}
use utero_archive.Base.Bits.{and_low, and_split, and-zero}
use utero_archive.Base.Memory.{Memory}
use utero_archive.Core.Ports.{Hardware, PortEvent, read, wrote, Io, ◌>>=◌, ◌>>◌}
use utero_archive.Core.Cmos.{
  Rtc, update_in_progress, read_register, rtc_values_are_not_equal, wait_for_update, read_registers,
  settle_loop, convert, cmos_read_rtc,
}

-- What the clock answers around one reading: a flag that is set for some time, then is clear, and
-- the eight registers.
pub record Round : Type 0 where
  pub busy : List ℕ
  pub idle : ℕ
  pub rtc : Rtc

abbrev pub AllBusy : List ℕ → Type 0
AllBusy [] = Unit {0}
AllBusy (b ∷ bs) = (128 ≤ b) × (b < 256) × AllBusy bs

pub record IsBytes (r : Rtc) : Type 0 where
  pub seconds : r.seconds < 256
  pub minutes : r.minutes < 256
  pub hours : r.hours < 256
  pub weekdays : r.weekdays < 256
  pub day : r.day < 256
  pub month : r.month < 256
  pub year : r.year < 256
  pub century : r.century < 256

pub record IsRound (waits : ℕ) (r : Round) : Type 0 where
  pub busy : AllBusy r.busy
  pub short : length r.busy < waits
  pub idle : r.idle < 128
  pub bytes : IsBytes r.rtc

abbrev pub AllRounds : ℕ → List Round → Type 0
AllRounds waits [] = Unit {0}
AllRounds waits (r ∷ rs) = IsRound waits r × AllRounds waits rs

abbrev pub registers : Rtc → List ℕ → List ℕ
registers r rest =
    r.seconds ∷ r.minutes ∷ r.hours ∷ r.weekdays ∷ r.day ∷ r.month ∷ r.year ∷ r.century ∷ rest

abbrev pub script : List Round → List ℕ → List ℕ
script [] rest = rest
script (r ∷ rs) rest = r.busy ++ (r.idle ∷ registers r.rtc (script rs rest))

-- No reading but the last repeats the one before, and that is `v`.
abbrev pub SettlesAt : Rtc → List Round → Rtc → Type 0
SettlesAt last [] v = ⊥
SettlesAt last (r ∷ []) v = (r.rtc ≡ last) × (v ≡ last)
SettlesAt last (r ∷ rs) v = (r.rtc ≢ last) × SettlesAt r.rtc rs v

-- Hardware whose devices answer with the bytes of `input`.
abbrev pub device : Memory → List PortEvent → List ℕ → Hardware
device mem log input = record { memory = mem; input = input; log = log }

-- A computation that returns `a` and leaves `rest` to be read.
abbrev pub Reads : {A : Type 0} → Io A → List ℕ → A → List ℕ → Type 0
Reads m input a rest =
    (mem : Memory) (log : List PortEvent)
    → (log' : List PortEvent) × (m (device mem log input) ≡ some (a, device mem log' rest))

Reads-then :
    {A B : Type 0} (m : Io A) (f : A → Io B) (input mid rest : List ℕ) (a : A) (b : B)
    → Reads m input a mid
    → Reads (f a) mid b rest
    → Reads (m >>= f) input b rest
Reads-then m f input mid rest a b first second mem log =
    let (log1, e1) = first mem log in let (log2, e2) = second mem log1 in (log2, rw (e1, ◌>>=◌) e2)

flag_set : (b : ℕ) → 128 ≤ b → b < 256 → (bit_and b 0x80 == 0) ≡ false
flag_set b lo hi = ground (arith, and_split 7 b 0x80, and_low 1 (b / 128), and-zero (b % 128))

flag_clear : (b : ℕ) → b < 128 → (bit_and b 0x80 == 0) ≡ true
flag_clear b hi = ground (arith, and_split 7 b 0x80, and_low 1 (b / 128), and-zero (b % 128))

-- What asking for one register adds to the log.
abbrev asked : ℕ → ℕ → List PortEvent → List PortEvent
asked reg byte log = read 0x71 byte ∷ wrote 0x70 reg ∷ log

abbrev asked_all : Rtc → List PortEvent → List PortEvent
asked_all r log = asked 0xB2 r.century (
    asked 0x89 r.year (
      asked 0x88 r.month (
        asked 0x87 r.day (
          asked 0x86 r.weekdays
            (asked 0x84 r.hours (asked 0x82 r.minutes (asked 0x80 r.seconds log)))))))

wait_for_update-Reads :
    (fuel : ℕ) (bs : List ℕ) (idle : ℕ) (rest : List ℕ)
    → AllBusy bs
    → idle < 128
    → length bs < fuel
    → Reads (wait_for_update fuel) (bs ++ (idle ∷ rest)) tt rest
unfolding wait_for_update update_in_progress
wait_for_update-Reads zero bs idle rest all h f mem log = absurd (omega arith)
wait_for_update-Reads (suc fuel) [] idle rest all h f mem log =
    let byte : u8 idle ≡ idle = omega arith in
    (asked 0x0A idle log, rw (byte, flag_clear idle h) refl)
wait_for_update-Reads (suc fuel) (b ∷ bs) idle rest (lo, hi, all) h f mem log =
    let byte : u8 b ≡ b = omega arith in
    let (log', e) =
      wait_for_update-Reads fuel bs idle rest all h (omega arith) mem (asked 0x0A b log) in
    (log', rw (byte, flag_set b lo hi) e)

read_registers-Reads :
    (r : Rtc) (rest : List ℕ) → IsBytes r → Reads read_registers (registers r rest) r rest
unfolding read_registers read_register
read_registers-Reads r rest v mem log = (
  asked_all r log,
  rw
      (
        mod-eq_of_lt v.seconds,
        mod-eq_of_lt v.minutes,
        mod-eq_of_lt v.hours,
        mod-eq_of_lt v.weekdays,
        mod-eq_of_lt v.day,
        mod-eq_of_lt v.month,
        mod-eq_of_lt v.year,
        mod-eq_of_lt v.century,
      )
      refl,
)

not_equal-same : (a b : Rtc) → a ≡ b → rtc_values_are_not_equal a b ≡ false
unfolding rtc_values_are_not_equal
not_equal-same a b e = rw e (ground arith)

not_equal-ne : (a b : Rtc) → a ≢ b → rtc_values_are_not_equal a b ≡ true
unfolding rtc_values_are_not_equal
not_equal-ne a b ne = elim (Bool-cases (rtc_values_are_not_equal a b)) [
  | inl t ↦ t
  | inr f ↦ absurd (ne (ground arith))
]

-- One round of the loop: the wait and the eight registers.
round-Reads :
    (waits : ℕ) (r : Round) (rest : List ℕ)
    → IsRound waits r
    → Reads
        (wait_for_update waits >> read_registers)
        (r.busy ++ (r.idle ∷ registers r.rtc rest))
        r.rtc
        rest
round-Reads waits r rest v =
    Reads-then (wait_for_update waits) (λ u. read_registers) _ (registers r.rtc rest) rest tt r.rtc
      (wait_for_update-Reads waits r.busy r.idle (registers r.rtc rest) v.busy v.idle v.short)
      (read_registers-Reads r.rtc rest v.bytes)

settle_loop-Reads :
    (waits fuel : ℕ) (rs : List Round) (last v : Rtc) (rest : List ℕ)
    → AllRounds waits rs
    → SettlesAt last rs v
    → length rs ≤ fuel
    → Reads (settle_loop waits fuel last) (script rs rest) v rest
unfolding settle_loop
settle_loop-Reads waits zero [] last v rest all s f mem log = absurd s
settle_loop-Reads waits zero (r ∷ rs) last v rest all s f mem log = absurd (omega arith)
settle_loop-Reads waits (suc fuel) [] last v rest all s f mem log = absurd s
settle_loop-Reads waits (suc fuel) (r ∷ []) last v rest (one, all) (same, e) f mem log =
    let (log1, e1) = round-Reads waits r rest one mem log in
    (
      log1,
      rw (e1, settle_loop, not_equal-same r.rtc last same)
          (ap (λ x. some (x, device mem log1 rest)) (same ∙ sym e)),
    )
settle_loop-Reads waits (suc fuel) (r ∷ q ∷ rs) last v rest (one, all) (ne, s) f mem log =
    let (log1, e1) = round-Reads waits r (script (q ∷ rs) rest) one mem log in
    let (log2, e2) =
      settle_loop-Reads waits fuel (q ∷ rs) r.rtc v rest all s (omega arith) mem log1 in
    (log2, rw (e1, settle_loop, not_equal-ne r.rtc last ne) e2)

-- Of a clock whose waits are shorter than the fuel and that at some time gives a reading twice in
-- a row, `cmos_read_rtc` returns: the date that this reading stands for, in the format that the
-- status register B tells, with nothing read behind that register.
pub cmos_read_rtc-Reads :
    (waits fuel : ℕ) (r : Round) (rs : List Round) (v : Rtc) (reg_b : ℕ) (rest : List ℕ)
    → IsRound waits r
    → AllRounds waits rs
    → SettlesAt r.rtc rs v
    → length rs ≤ fuel
    → reg_b < 256
    → Reads (cmos_read_rtc waits fuel) (script (r ∷ rs) (reg_b ∷ rest)) (convert reg_b v) rest
unfolding cmos_read_rtc read_register
cmos_read_rtc-Reads waits fuel r rs v reg_b rest one all s f small mem log =
    let tail = script rs (reg_b ∷ rest) in
    let (log1, e1) =
      wait_for_update-Reads waits r.busy r.idle (registers r.rtc tail) one.busy one.idle one.short
        mem log in
    let (log2, e2) = read_registers-Reads r.rtc tail one.bytes mem log1 in
    let (log3, e3) = settle_loop-Reads waits fuel rs r.rtc v (reg_b ∷ rest) all s f mem log2 in
    (asked 0x8B reg_b log3, rw (e1, ◌>>=◌, e2, ◌>>=◌, e3, ◌>>=◌, mod-eq_of_lt small) refl)
