-- ===== src/Core/Cmos.antt =====
-- The real-time clock (src/core/cmos.c, src/include/core/cmos.h): reading the registers until two
-- readings agree, and the conversion to a date. The fuel bounds each of the waiting loops.
pub mod Clock
pub mod Reading
use utero_archive.Base.{
  ℕ, zero, suc, ◌+◌, ◌*◌, ◌/◌, ◌%◌, Bool, true, false, ◌&&◌, ◌||◌, not, Option, none, some, ◌==◌,
  if◌then◌else◌, bit_and, bit_or, u8, u16,
}
use utero_archive.Core.Ports.{Io, ◌>>=◌, ◌>>◌, pure, out_byte, port_byte_in}

abbrev pub cmos_command_port : ℕ
cmos_command_port = 0x70

abbrev pub cmos_data_port : ℕ
cmos_data_port = 0x71

abbrev pub reg_seconds : ℕ
reg_seconds = 0x00

abbrev pub reg_minutes : ℕ
reg_minutes = 0x02

abbrev pub reg_hours : ℕ
reg_hours = 0x04

abbrev pub reg_weekdays : ℕ
reg_weekdays = 0x06

abbrev pub reg_day : ℕ
reg_day = 0x07

abbrev pub reg_month : ℕ
reg_month = 0x08

abbrev pub reg_year : ℕ
reg_year = 0x09

abbrev pub reg_century : ℕ
reg_century = 0x32

abbrev pub reg_status_a : ℕ
reg_status_a = 0x0A

abbrev pub reg_status_b : ℕ
reg_status_b = 0x0B

pub record Rtc : Type 0 where
  pub seconds : ℕ
  pub minutes : ℕ
  pub hours : ℕ
  pub weekdays : ℕ
  pub day : ℕ
  pub month : ℕ
  pub year : ℕ
  pub century : ℕ

pub update_in_progress : Io Bool
update_in_progress = do
  out_byte cmos_command_port reg_status_a
  status ← port_byte_in cmos_data_port
  pure (not (bit_and status 0x80 == 0))

pub read_register : ℕ → Io ℕ
read_register reg = do out_byte cmos_command_port (bit_or 128 reg); port_byte_in cmos_data_port

pub rtc_values_are_not_equal : Rtc → Rtc → Bool
rtc_values_are_not_equal c1 c2 =
    not (c1.seconds == c2.seconds)
    || not (c1.minutes == c2.minutes)
    || not (c1.hours == c2.hours)
    || not (c1.weekdays == c2.weekdays)
    || not (c1.day == c2.day)
    || not (c1.month == c2.month)
    || not (c1.year == c2.year)
    || not (c1.century == c2.century)

-- while (update_in_progress()) ;
pub wait_for_update : ℕ → Io (Unit {0})
wait_for_update zero = λ hw. none
wait_for_update (suc fuel) = λ hw. elim (update_in_progress hw) [
  | none ↦ none
  | some (busy, hw') ↦
      let again = wait_for_update fuel hw' in if busy then again else some (tt, hw')
]

-- The eight registers, as the code reads them each time.
pub read_registers : Io Rtc
read_registers = do
  seconds ← read_register reg_seconds
  minutes ← read_register reg_minutes
  hours ← read_register reg_hours
  weekdays ← read_register reg_weekdays
  day ← read_register reg_day
  month ← read_register reg_month
  year ← read_register reg_year
  century ← read_register reg_century
  pure (record {
    seconds = seconds;
    minutes = minutes;
    hours = hours;
    weekdays = weekdays;
    day = day;
    month = month;
    year = year;
    century = century;
  })

-- The `do` loop; `waits` bounds the wait of each round.
pub settle_loop : ℕ → ℕ → Rtc → Io Rtc
settle_loop waits zero last = λ hw. none
settle_loop waits (suc fuel) last = λ hw. elim ((wait_for_update waits >> read_registers) hw) [
  | none ↦ none
  | some (rtc, hw') ↦
      let again = settle_loop waits fuel rtc hw' in
      if rtc_values_are_not_equal rtc last then again else some (rtc, hw')
]

pub bcd : ℕ → ℕ
bcd n = bit_and n 0x0F + n / 16 * 10

-- The highest bit of the hours is that of the afternoon, and is kept.
pub bcd_hours : ℕ → ℕ
bcd_hours n = bit_or (bit_and n 0x0F + bit_and n 0x70 / 16 * 10) (bit_and n 0x80)

unfoldable pub from_bcd : Rtc → Rtc
from_bcd r = record {
  seconds = u8 (bcd r.seconds);
  minutes = u8 (bcd r.minutes);
  hours = u8 (bcd_hours r.hours);
  weekdays = u8 (bcd r.weekdays);
  day = u8 (bcd r.day);
  month = u8 (bcd r.month);
  year = u16 (bcd r.year);
  century = u8 (bcd r.century);
}

unfoldable pub to_24_hours : ℕ → ℕ
to_24_hours hours = (bit_and hours 0x7F + 12) % 24

-- What follows the loop, with the status register B.
unfoldable pub convert : ℕ → Rtc → Rtc
convert reg_b r =
    let binary = if bit_and reg_b 0x04 == 0 then from_bcd r else r in
    let afternoon = bit_and reg_b 0x02 == 0 && not (bit_and binary.hours 0x80 == 0) in
    record binary {
      hours = if afternoon then to_24_hours binary.hours else binary.hours;
      year = u16 (binary.year + binary.century * 100);
    }

pub cmos_read_rtc : ℕ → ℕ → Io Rtc
cmos_read_rtc waits fuel = do
  wait_for_update waits
  first ← read_registers
  rtc ← settle_loop waits fuel first
  reg_b ← read_register reg_status_b
  pure (convert reg_b rtc)
