-- ===== src/Core/Ports.antt =====
-- Port input and output (src/core/ports.c) over the hardware: memory, what the devices will answer
-- to the reads to come, and what has been done at the ports, the latest first. A computation that
-- reads a port is `none` where the recorded answers of the devices end.
use utero_archive.Base.{ℕ, Option, none, some, List, [], ◌∷◌, u8, u16}
use utero_archive.Base.Memory.{Memory}

pub data PortEvent : Type 0 where
  wrote : ℕ → ℕ → PortEvent
  read : ℕ → ℕ → PortEvent

pub record Hardware : Type 0 where
  pub memory : Memory
  pub input : List ℕ
  pub log : List PortEvent

-- The second argument is a `uint8_t`: a wider one is cut.
abbrev pub port_byte_out : ℕ → ℕ → Hardware → Hardware
port_byte_out port byte hw = record hw { log = wrote port (u8 byte) ∷ hw.log }

abbrev pub answered : (ℕ → ℕ) → ℕ → List ℕ → Hardware → Option (ℕ × Hardware)
answered width port [] hw = none
answered width port (n ∷ rest) hw =
    some (width n, record hw { input = rest; log = read port (width n) ∷ hw.log })

abbrev pub port_byte_in : ℕ → Hardware → Option (ℕ × Hardware)
port_byte_in port hw = answered u8 port hw.input hw

abbrev pub port_word_out : ℕ → ℕ → Hardware → Hardware
port_word_out port word hw = record hw { log = wrote port (u16 word) ∷ hw.log }

abbrev pub port_word_in : ℕ → Hardware → Option (ℕ × Hardware)
port_word_in port hw = answered u16 port hw.input hw

-- Computations that use the ports, in sequence.
abbrev pub Io : Type 0 → Type 0
Io A = Hardware → Option (A × Hardware)

infixl 5 ◌>>=◌ ◌>>◌
abbrev pub ◌>>=◌ : {A B : Type 0} → Io A → (A → Io B) → Io B
◌>>=◌ m f hw = elim (m hw) [ none ↦ none | some (a, hw') ↦ f a hw' ]

abbrev pub ◌>>◌ : {B : Type 0} → Io (Unit {0}) → Io B → Io B
m >> k = m >>= λ u. k

abbrev pub pure : {A : Type 0} → A → Io A
pure a hw = some (a, hw)

abbrev pub out_byte : ℕ → ℕ → Io (Unit {0})
out_byte port byte hw = some (tt, port_byte_out port byte hw)
