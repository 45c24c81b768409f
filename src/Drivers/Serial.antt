-- ===== src/Drivers/Serial.antt =====
-- The serial ports (src/drivers/serial.c, src/include/drivers/serial.h). The fuel bounds the
-- rounds of each wait for the device.
pub mod Sent
use utero_archive.Base.{
  ℕ, zero, suc, ◌+◌, ◌/◌, ◌^◌, Bool, not, Option, none, some, List, [], ◌∷◌, ◌==◌, if◌then◌else◌,
  bit_and, u16,
}
use utero_archive.Core.Ports.{Io, ◌>>=◌, ◌>>◌, pure, out_byte, port_byte_in}

abbrev pub serial_com1 : ℕ
serial_com1 = 0x3F8

abbrev pub serial_data_port : ℕ → ℕ
serial_data_port base = base

abbrev pub serial_fifo_command_port : ℕ → ℕ
serial_fifo_command_port base = u16 (base + 2)

abbrev pub serial_line_command_port : ℕ → ℕ
serial_line_command_port base = u16 (base + 3)

abbrev pub serial_modem_command_port : ℕ → ℕ
serial_modem_command_port base = u16 (base + 4)

abbrev pub serial_line_status_port : ℕ → ℕ
serial_line_status_port base = u16 (base + 5)

abbrev pub serial_line_enable_dlab : ℕ
serial_line_enable_dlab = 0x80

abbrev pub serial_speed_115200 : ℕ
serial_speed_115200 = 1

unfoldable pub serial_init : ℕ → ℕ → Io (Unit {0})
serial_init line divisor = do
  out_byte (serial_line_command_port line) serial_line_enable_dlab
  out_byte (serial_data_port line) (bit_and (divisor / 2 ^ 8) 0x00FF)
  out_byte (serial_data_port line) (bit_and divisor 0x00FF)
  out_byte (serial_line_command_port line) 0x03
  out_byte (serial_fifo_command_port line) 0xC7
  out_byte (serial_modem_command_port line) 0x0B

pub serial_is_transmit_fifo_empty : ℕ → Io Bool
serial_is_transmit_fifo_empty line = do
  status ← port_byte_in (serial_line_status_port line)
  pure (not (bit_and status 0x20 == 0))

pub serial_received : ℕ → Io Bool
serial_received line = do
  status ← port_byte_in (serial_line_status_port line)
  pure (not (bit_and status 1 == 0))

-- while (test(line) == 0) ;
pub wait_until : ℕ → Io Bool → Io (Unit {0})
wait_until zero test = λ hw. none
wait_until (suc fuel) test = λ hw. elim (test hw) [
  | none ↦ none
  | some (ready, hw') ↦
      let again = wait_until fuel test hw' in if ready then some (tt, hw') else again
]

pub serial_read : ℕ → ℕ → Io ℕ
serial_read waits line = do wait_until waits (serial_received line); port_byte_in line

unfoldable pub serial_write : ℕ → ℕ → ℕ → Io (Unit {0})
serial_write waits line c = do
  wait_until waits (serial_is_transmit_fifo_empty line)
  out_byte line c

unfoldable pub serial_print : ℕ → ℕ → List ℕ → Io (Unit {0})
serial_print waits line [] = pure tt
serial_print waits line (c ∷ str) = serial_write waits line c >> serial_print waits line str
