-- ===== src/Kernel/State.antt =====
-- The kernel's state (src/kernel/kmain.c), and computations on it. What the build and the processor
-- supply is a record of parameters: the addresses of the entry points of asm/interrupt.asm, the date
-- of the build, the places that a panic names, where an interrupt finds the saved registers, and the
-- bounds of the loops. `none` is what it is in the parts.
use utero_archive.Base.{ℕ, Bool, true, false, Option, none, some, List}
use utero_archive.Core.Ports.{Hardware, Io}
use utero_archive.Core.Idt.{Idt}
use utero_archive.Core.Isr.{Interrupts}
use utero_archive.Mmu.Mmap.{Mmap}
use utero_archive.Drivers.Screen.{Screen}

-- The functions that the kernel registers.
pub data Handler : Type 0 where
  breakpoint timer keyboard : Handler

pub record Location : Type 0 where
  pub file : List ℕ
  pub line : ℕ
  pub function : List ℕ

pub record Build : Type 0 where
  pub waits : ℕ
  pub fuel : ℕ
  pub isr : ℕ → ℕ
  pub irq : ℕ → ℕ
  pub stack : ℕ
  pub kmain_panic : Location
  pub isr_panic : Location
  pub date : List ℕ
  pub time : List ℕ

pub record Kernel : Type 0 where
  pub screen : Screen
  pub idt : Idt
  pub interrupt_handlers : ℕ → Option Handler
  pub tick : ℕ
  pub mmap : Mmap
  pub interrupts_enabled : Bool
  pub halted : Bool

abbrev pub Step : Type 0 → Type 0
Step A = Kernel → Option (A × Kernel)

infixl 5 ◌>>=◌ ◌>>◌
abbrev pub ◌>>=◌ : {A B : Type 0} → Step A → (A → Step B) → Step B
◌>>=◌ m f k = elim (m k) [ none ↦ none | some (a, k') ↦ f a k' ]

abbrev pub ◌>>◌ : {B : Type 0} → Step (Unit {0}) → Step B → Step B
m >> rest = m >>= λ u. rest

abbrev pub pure : {A : Type 0} → A → Step A
pure a k = some (a, k)

-- A part's operation on its share of the state.
abbrev pub put_screen : Kernel → Option Screen → Option (Unit {0} × Kernel)
put_screen k none = none
put_screen k (some s) = some (tt, record k { screen = s })

abbrev pub on_screen : (Screen → Option Screen) → Step (Unit {0})
on_screen f k = put_screen k (f k.screen)

abbrev pub set_hardware : Hardware → Kernel → Kernel
set_hardware hw k = record k { screen = record (k.screen) { hardware = hw } }

abbrev pub put_hardware {ℓ} : {A : Type ℓ} → Kernel → Option (A × Hardware) → Option (A × Kernel)
put_hardware k none = none
put_hardware k (some (a, hw)) = some (a, set_hardware hw k)

abbrev pub on_hardware : {A : Type 0} → Io A → Step A
on_hardware m k = put_hardware k (m k.screen.hardware)

abbrev pub interrupts : Kernel → Interrupts Handler
interrupts k = record {
  idt = k.idt;
  interrupt_handlers = k.interrupt_handlers;
  hardware = k.screen.hardware;
}

abbrev pub set_interrupts : Interrupts Handler → Kernel → Kernel
set_interrupts i k = record (set_hardware i.hardware k) {
  idt = i.idt;
  interrupt_handlers = i.interrupt_handlers;
}

abbrev pub put_interrupts : Kernel → Option (Interrupts Handler) → Option (Unit {0} × Kernel)
put_interrupts k none = none
put_interrupts k (some i) = some (tt, set_interrupts i k)

abbrev pub on_interrupts : (Interrupts Handler → Option (Interrupts Handler)) → Step (Unit {0})
on_interrupts f k = put_interrupts k (f (interrupts k))

abbrev pub given {ℓ} : {A : Type ℓ} → Option A → Kernel → Option (A × Kernel)
given none k = none
given (some a) k = some (a, k)

-- The instructions sti and cli.
abbrev pub irq_init : Step (Unit {0})
irq_init k = some (tt, record k { interrupts_enabled = true })

abbrev pub irq_disable : Step (Unit {0})
irq_disable k = some (tt, record k { interrupts_enabled = false })

abbrev pub halt : Step (Unit {0})
halt k = some (tt, record k { halted = true })
