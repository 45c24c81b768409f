-- ===== src/Drivers/Serial/Sent.antt =====
-- What is sent over a serial port, and that the waits end.
use mathlib.Core.List.{reverse-cons, append_assoc}
use utero_archive.Base.{
  ℕ, zero, suc, ◌*◌, ◌/◌, ◌%◌, ◌<◌, ◌≡◌, ◌≢◌, refl, ◌∙◌, true, false, arith, ◌==◌, if◌then◌else◌,
  bit_and, u8, Option, some, List, [], ◌∷◌, ◌++◌, reverse, length,
}
use utero_archive.Base.Bits.{and_low, and_split, and-zero}
use utero_archive.Base.Memory.{Memory}
use utero_archive.Core.Ports.{Hardware, PortEvent, read, wrote, ◌>>=◌}
use utero_archive.Drivers.Serial.{
  serial_is_transmit_fifo_empty, wait_until, serial_write, serial_print, serial_line_status_port,
}

-- The bytes that were written to a port, the latest first.
unfoldable pub written : ℕ → List PortEvent → List ℕ
written port [] = []
written port (wrote p b ∷ log) = if p == port then b ∷ written port log else written port log
written port (read p b ∷ log) = written port log

-- What the device answers for one character: the status without bit 5 for some time, then with it.
pub record Turn : Type 0 where
  pub busy : List ℕ
  pub ready : ℕ

abbrev pub AllFull : List ℕ → Type 0
AllFull [] = Unit {0}
AllFull (b ∷ bs) = (b < 256) × (b / 32 % 2 ≡ 0) × AllFull bs

pub record IsTurn (waits : ℕ) (t : Turn) : Type 0 where
  pub busy : AllFull t.busy
  pub short : length t.busy < waits
  pub ready : t.ready / 32 % 2 ≡ 1
  pub byte : t.ready < 256

abbrev pub AllTurns : ℕ → List Turn → Type 0
AllTurns waits [] = Unit {0}
AllTurns waits (t ∷ ts) = IsTurn waits t × AllTurns waits ts

abbrev pub answers : List Turn → List ℕ → List ℕ
answers [] rest = rest
answers (t ∷ ts) rest = t.busy ++ (t.ready ∷ answers ts rest)

abbrev pub AllBytes : List ℕ → Type 0
AllBytes [] = Unit {0}
AllBytes (c ∷ cs) = (c < 256) × AllBytes cs

abbrev pub device : Memory → List PortEvent → List ℕ → Hardware
device mem log input = record { memory = mem; input = input; log = log }

bit_5 : (b : ℕ) → bit_and b 0x20 ≡ b / 32 % 2 * 32
bit_5 b = omega (arith, and_split 5 b 0x20, and_low 1 (b / 32), and-zero (b % 32))

-- A wait that ends: the log grows by reads alone.
record Waited (line : ℕ) (mem : Memory) (log : List PortEvent) (rest : List ℕ)
    (result : Option (Unit {0} × Hardware)) : Type 0 where
  log' : List PortEvent
  returns : result ≡ some (tt, device mem log' rest)
  quiet : (port : ℕ) → written port log' ≡ written port log

wait-Waited :
    (line waits : ℕ) (bs : List ℕ) (ready : ℕ) (rest : List ℕ) (mem : Memory) (log : List PortEvent)
    → AllFull bs
    → length bs < waits
    → ready / 32 % 2 ≡ 1
    → ready < 256
    → Waited line mem log rest (
        wait_until waits
          (serial_is_transmit_fifo_empty line)
          (device mem log (bs ++ (ready ∷ rest))))
unfolding wait_until serial_is_transmit_fifo_empty written
wait-Waited line zero bs ready rest mem log all f on byte = absurd (omega arith)
wait-Waited line (suc waits) [] ready rest mem log all f on byte =
    let cut : u8 ready ≡ ready = omega arith in
    let set : (bit_and ready 0x20 == 0) ≡ false = ground (arith, bit_5 ready) in
    record {
      log' = read (serial_line_status_port line) ready ∷ log;
      returns = rw (cut, set) refl;
      quiet = λ port. refl;
    }
wait-Waited line (suc waits) (b ∷ bs) ready rest mem log (small, off, all) f on byte =
    let cut : u8 b ≡ b = omega arith in
    let clear : (bit_and b 0x20 == 0) ≡ true = ground (arith, bit_5 b) in
    let w =
      wait-Waited line waits bs ready rest mem (read (serial_line_status_port line) b ∷ log) all
        (omega arith) on byte in
    record { log' = w.log'; returns = rw (cut, clear) w.returns; quiet = w.quiet }

-- What printing leaves: the text, in order, behind what the port was sent before, and nothing on
-- any other port.
pub record Printed (line : ℕ) (str : List ℕ) (mem : Memory) (log : List PortEvent) (rest : List ℕ)
    (result : Option (Unit {0} × Hardware)) : Type 0 where
  pub log' : List PortEvent
  pub returns : result ≡ some (tt, device mem log' rest)
  pub sent : written line log' ≡ reverse str ++ written line log
  pub others : (port : ℕ) → port ≢ line → written port log' ≡ written port log

-- Where the device takes each character after a wait that is shorter than the fuel, printing
-- returns, and the port has been sent the text, in order; no other port is written.
pub serial_print-Printed :
    (line waits : ℕ) (str : List ℕ) (ts : List Turn) (mem : Memory) (log : List PortEvent)
    (rest : List ℕ)
    → AllBytes str
    → AllTurns waits ts
    → length ts ≡ length str
    → Printed line str mem log rest (serial_print waits line str (device mem log (answers ts rest)))
unfolding serial_print serial_write written
serial_print-Printed line waits [] [] mem log rest b all e = record {
  log' = log;
  returns = refl;
  sent = refl;
  others = λ port ne. refl;
}
serial_print-Printed line waits [] (t ∷ ts) mem log rest b all e = absurd (omega arith)
serial_print-Printed line waits (c ∷ str) [] mem log rest b all e = absurd (omega arith)
serial_print-Printed line waits (c ∷ str) (t ∷ ts) mem log rest (byte, b) (one, all) e =
    let w =
      wait-Waited line waits t.busy t.ready (answers ts rest) mem log one.busy one.short one.ready
        one.byte in
    let cut : u8 c ≡ c = omega arith in
    let p =
      serial_print-Printed line waits str ts mem (wrote line c ∷ w.log') rest b all (omega arith) in
    let same : (line == line) ≡ true = ground arith in
    record {
      log' = p.log';
      returns = rw (w.returns, ◌>>=◌, cut) p.returns;
      sent =
          p.sent
          ∙ rw
              (
                same,
                w.quiet line,
                reverse-cons c str,
                append_assoc (reverse str) (c ∷ []) (written line log),
              )
              refl;
      others = λ port ne.
          let other : (line == port) ≡ false = ground arith in
          p.others port ne ∙ rw (other, w.quiet port) refl;
    }
