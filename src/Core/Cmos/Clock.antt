-- ===== src/Core/Cmos/Clock.antt =====
-- The date that the registers of each format stand for.
use utero_archive.Base.{
  ◌==◌, ℕ, ◌+◌, ◌*◌, ◌/◌, ◌%◌, ◌^◌, ◌≤◌, ◌<◌, ◌≡◌, ◌≢◌, Bool, true, false, ◌↔◌, arith,
  if◌then◌else◌, bit_and,
}
use utero_archive.Base.Bits.{and_low, and_split, or_split, and-zero, or-zero, zero-or}
use utero_archive.Core.Cmos.{Rtc, bcd, bcd_hours, from_bcd, to_24_hours, convert}

bcd_arith : (n : ℕ) → bcd n ≡ n % 16 + n / 16 * 10
unfolding bcd
bcd_arith n = omega (arith, and_low 4 n)

bit_7 : (n : ℕ) → n < 256 → bit_and n 0x80 ≡ n / 128 * 128
bit_7 n h = omega (arith, and_split 7 n 0x80, and_low 1 (n / 128), and-zero (n % 128))

bcd_hours_arith :
    (n : ℕ) → n < 256 → n % 16 < 10 → bcd_hours n ≡ n % 16 + n / 16 % 8 * 10 + n / 128 * 128
unfolding bcd_hours
bcd_hours_arith n h digit =
    let tens : bit_and n 0x70 ≡ n / 16 % 8 * 16 =
      omega (arith, and_split 4 n 0x70, and_low 3 (n / 16), and-zero (n % 16)) in
    let x = n % 16 + n / 16 % 8 * 10 in
    let small : x < 128 = omega arith in
    let half : (n / 16 % 8 * 16) / 16 ≡ n / 16 % 8 = omega arith in
    let above : x / 2 ^ 7 ≡ 0 = omega arith in
    let below : x % 2 ^ 7 ≡ x = omega arith in
    let bit : (n / 128 * 128) / 2 ^ 7 ≡ n / 128 = omega arith in
    let none' : (n / 128 * 128) % 2 ^ 7 ≡ 0 = omega arith in
    rw
      (
        and_low 4 n,
        tens,
        bit_7 n h,
        half,
        or_split 7 x (n / 128 * 128),
        above,
        below,
        bit,
        none',
        zero-or (n / 128),
        or-zero x,
      )
      (omega arith)

-- A byte with a number's two decimal digits.
abbrev pub to_bcd : ℕ → ℕ
to_bcd n = n / 10 * 16 + n % 10

-- A date of the years 0 to 25599, with its century apart.
pub record IsDate (d : Rtc) : Type 0 where
  pub seconds : d.seconds < 60
  pub minutes : d.minutes < 60
  pub hours : d.hours < 24
  pub weekdays : d.weekdays ≤ 7
  pub day : d.day ≤ 31
  pub month : d.month ≤ 12
  pub year : d.year < 100
  pub century : d.century < 100

-- The registers of a clock that shows a date: in decimal digits or in binary, and with 24 hours.
abbrev pub shows_24 : Bool → Rtc → Rtc
shows_24 decimal d =
    let show : ℕ → ℕ = λ n. if decimal then to_bcd n else n in
    record {
      seconds = show d.seconds;
      minutes = show d.minutes;
      hours = show d.hours;
      weekdays = show d.weekdays;
      day = show d.day;
      month = show d.month;
      year = show d.year;
      century = show d.century;
    }

-- The bits of status register B: 0x04 for binary registers, 0x02 for 24 hours.
abbrev pub status_b : Bool → Bool → ℕ
status_b decimal half = (if decimal then 0 else 4) + (if half then 0 else 2)

abbrev pub full_year : Rtc → Rtc
full_year d = record d { year = d.year + d.century * 100 }

bcd-to_bcd : (n : ℕ) → n < 100 → bcd (to_bcd n) ≡ n
bcd-to_bcd n h = omega (arith, bcd_arith (to_bcd n))

-- Of a clock with 24 hours, in decimal digits or in binary, every date is read back, with the
-- century added to its year.
pub convert-shows_24 :
    (decimal : Bool) (d : Rtc)
    → IsDate d
    → convert (status_b decimal false) (shows_24 decimal d) ≡ full_year d
unfolding convert from_bcd
convert-shows_24 true d v = ground (
  arith,
  bcd-to_bcd d.seconds,
  bcd-to_bcd d.minutes,
  bcd_hours_arith (to_bcd d.hours),
  bcd-to_bcd d.weekdays,
  bcd-to_bcd d.day,
  bcd-to_bcd d.month,
  bcd-to_bcd d.year,
  bcd-to_bcd d.century,
)
convert-shows_24 false d v = ground arith

-- The hours register of a clock with 12 hours.
abbrev pub hours_12 : Bool → ℕ → Bool → ℕ
hours_12 decimal hour pm = (if decimal then to_bcd hour else hour) + (if pm then 128 else 0)

-- The hour of the day that a 12-hour clock shows: 12 is the first hour of each half.
abbrev pub hour_of_day : ℕ → Bool → ℕ
hour_of_day hour pm = hour % 12 + (if pm then 12 else 0)

hours-12 :
    (decimal : Bool) (hour : ℕ) (pm : Bool) (r : Rtc)
    → 1 ≤ hour
    → hour ≤ 12
    → r.hours ≡ hours_12 decimal hour pm
    → (convert (status_b decimal true) r).hours ≡ (if pm then (hour + 12) % 24 else hour)
unfolding convert from_bcd to_24_hours
hours-12 true hour true r lo hi e =
    ground (arith, bcd_hours_arith r.hours, bit_7 (hour + 128), and_low 7 (hour + 128))
hours-12 true hour false r lo hi e = ground (arith, bcd_hours_arith r.hours, bit_7 hour)
hours-12 false hour true r lo hi e = ground (arith, bit_7 (hour + 128), and_low 7 (hour + 128))
hours-12 false hour false r lo hi e = ground (arith, bit_7 hour)

-- Of a clock with 12 hours, in decimal digits or in binary, noon comes out as hour 0, midnight as
-- hour 12, and every other time as its hour of the day; so the hour is right exactly when the clock
-- does not show 12.
pub convert-hours_12 :
    (decimal : Bool) (hour : ℕ) (pm : Bool) (r : Rtc)
    → 1 ≤ hour
    → hour ≤ 12
    → r.hours ≡ hours_12 decimal hour pm
    → ((convert (status_b decimal true) r).hours
        ≡ (if hour == 12 then (if pm then 0 else 12) else hour_of_day hour pm))
      × (((convert (status_b decimal true) r).hours ≡ hour_of_day hour pm) ↔ (hour ≢ 12))
convert-hours_12 decimal hour true r lo hi e =
    let h = hours-12 decimal hour true r lo hi e in
    (ground arith, (λ same. omega arith, λ ne. omega arith))
convert-hours_12 decimal hour false r lo hi e =
    let h = hours-12 decimal hour false r lo hi e in
    (ground arith, (λ same. omega arith, λ ne. omega arith))
