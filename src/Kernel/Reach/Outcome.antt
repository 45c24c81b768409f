-- ===== src/Kernel/Reach/Outcome.antt =====
-- What one exception or interrupt leaves.
use utero_archive.Base.{
  ℕ, ◌+◌, ◌^◌, ◌<◌, ◌≡◌, ◌⊎◌, inl, inr, refl, sym, ap, ◌∙◌, arith, Bool, true, false, ltb, Option,
  some, none, List, [], ◌∷◌, u32,
}
use mathlib.Core.Option.{none-ne-some}
use utero_archive.Core.Isr.{get_stack, isr_handler, irq_handler}
use utero_archive.Core.Timer.{timer_callback}
use utero_archive.Drivers.Screen.{Screen, screen_width}
use utero_archive.Drivers.Keyboard.{irq1, keyboard_callback}
use utero_archive.Kernel.Reach.Handlers.{breakpoint_handler-Shown, keyboard_callback-Shown}
use utero_archive.Kernel.State.{
  Handler, breakpoint, timer, keyboard, Build, Kernel, put_screen, set_hardware,
}
use utero_archive.Kernel.Dispatch.{exception, interrupt, run_dispatch, run_handler}
use utero_archive.Kernel.Panic.Halting.{IsLocation, Shown}
use utero_archive.Kernel.Panic.Exception.{exception-Halted}
use utero_archive.Kernel.Runs.Served.{end_of_interrupt-log}

-- Interrupts are served, or the kernel is halted.
abbrev pub IsAlive : Kernel → Type 0
IsAlive k = (k.halted ≡ false) × (k.interrupts_enabled ≡ true)

abbrev pub IsStopped : Kernel → Type 0
IsStopped k = (k.halted ≡ true) × (k.interrupts_enabled ≡ false)

-- A state in which interrupts are served.
pub record IsServing (k : Kernel) : Type 0 where
  pub alive : IsAlive k
  pub column : k.screen.screen_col < screen_width
  pub tick : k.tick < 2 ^ 32
  pub keys : (n : ℕ) → k.interrupt_handlers n ≡ some keyboard → n ≡ irq1

-- `k'` differs from `k` in what an interrupt may change alone.
pub record Follows (k k' : Kernel) : Type 0 where
  pub idt : k'.idt ≡ k.idt
  pub handlers : k'.interrupt_handlers ≡ k.interrupt_handlers
  pub frames : k'.mmap ≡ k.mmap
  pub column : k'.screen.screen_col < screen_width
  pub tick : k'.tick < 2 ^ 32
  pub mode : IsAlive k' ⊎ IsStopped k'

pub record Returns (halts : Bool) (k : Kernel) (result : Option (Unit {0} × Kernel)) : Type 0 where
  pub after : Kernel
  pub returns : result ≡ some (tt, after)
  pub follows : Follows k after
  pub halted : after.halted ≡ halts

module _ (k : Kernel) (serving : IsServing k) where
  -- Of the state only the screen changes.
  Shown-Returns :
      (s : Screen) (result : Option Screen)
      → Shown result
      → Returns false k (put_screen (record k { screen = s }) result)
  Shown-Returns s result shown = record {
    after = record k { screen = shown.after };
    returns = rw shown.returns refl;
    follows = record {
      idt = refl;
      handlers = refl;
      frames = refl;
      column = shown.on_screen;
      tick = serving.tick;
      mode = inl serving.alive;
    };
    halted = serving.alive.0;
  }

-- The keyboard's device has a byte to read.
abbrev pub HasByte : Kernel → Type 0
HasByte k = (code : ℕ) × (rest : List ℕ) × (k.screen.hardware.input ≡ code ∷ rest)

input_cases :
    (input : List ℕ) → (input ≡ []) ⊎ ((code : ℕ) × (rest : List ℕ) × (input ≡ code ∷ rest))
input_cases [] = inl refl
input_cases (code ∷ rest) = inr (code, rest, refl)

handler_cases : (o : Option Handler) → (o ≡ none) ⊎ ((h : Handler) × (o ≡ some h))
handler_cases none = inl refl
handler_cases (some h) = inr (h, refl)

run_handler-Returns :
    (b : Build) (h : Handler) (stack : ℕ) (k : Kernel)
    → IsServing k
    → (h ≡ keyboard → HasByte k)
    → Returns false k (run_handler b h stack k)
unfolding run_handler timer_callback
run_handler-Returns b breakpoint stack k serving byte =
    Shown-Returns k serving k.screen _
      (breakpoint_handler-Shown b.waits k.screen serving.column stack)
run_handler-Returns b timer stack k serving byte = record {
  after = record k { tick = u32 (k.tick + 1) };
  returns = refl;
  follows = record {
    idt = refl;
    handlers = refl;
    frames = refl;
    column = serving.column;
    tick = omega arith;
    mode = inl serving.alive;
  };
  halted = serving.alive.0;
}
run_handler-Returns b keyboard stack k serving byte =
    let (code, rest, e) = byte refl in
    Shown-Returns k serving k.screen _
      (keyboard_callback-Shown b.waits k.screen serving.column code rest e)

abbrev pub is_unhandled : Option Handler → Bool
is_unhandled none = true
is_unhandled (some h) = false

-- An exception is handled, or stops the kernel.
pub exception-Returns :
    (b : Build) (id stack_addr : ℕ) (k : Kernel)
    → id < 32
    → IsLocation b.isr_panic
    → IsServing k
    → Returns (is_unhandled (k.interrupt_handlers id)) k (exception b id stack_addr k)
unfolding exception isr_handler run_dispatch
exception-Returns b id stack_addr k low loc serving =
    elim (handler_cases (k.interrupt_handlers id)) [
      | inl unset ↦
          let h = exception-Halted b id stack_addr k low unset loc serving.column in
          record {
            after = record k { screen = h.screen; interrupts_enabled = false; halted = true };
            returns = h.returns;
            follows = record {
              idt = refl;
              handlers = refl;
              frames = refl;
              column = h.column;
              tick = serving.tick;
              mode = inr (refl, refl);
            };
            halted = rw unset refl;
          }
      | inr (h, set) ↦
          let range : ltb id 256 ≡ true = ground arith in
          rw (range, set, exception, isr_handler)
            (run_handler-Returns b h (get_stack id stack_addr) k serving
              (λ e. absurd (omega (arith, serving.keys id (set ∙ ap some e), low))))
    ]

-- An interrupt is served, the keyboard's if its device has a byte.
pub interrupt-Returns :
    (b : Build) (id stack_addr : ℕ) (k : Kernel)
    → id < 256
    → IsServing k
    → (k.interrupt_handlers id ≡ some keyboard → HasByte k)
    → Returns false k (interrupt b id stack_addr k)
unfolding interrupt run_dispatch irq_handler
interrupt-Returns b id stack_addr k low serving byte =
    let range : ltb id 256 ≡ true = ground arith in
    let (log, told) = end_of_interrupt-log id k.screen.hardware in
    let k1 = set_hardware (record (k.screen.hardware) { log = log }) k in
    let serving1 : IsServing k1 = record {
      alive = serving.alive;
      column = serving.column;
      tick = serving.tick;
      keys = serving.keys;
    } in
    elim (handler_cases (k.interrupt_handlers id)) [
      | inl unset ↦ record {
        after = k1;
        returns = rw (range, unset, told, interrupt) refl;
        follows = record {
          idt = refl;
          handlers = refl;
          frames = refl;
          column = serving.column;
          tick = serving.tick;
          mode = inl serving.alive;
        };
        halted = serving.alive.0;
      }
      | inr (h, set) ↦
          let r =
            run_handler-Returns b h (get_stack id stack_addr) k1 serving1
              (λ e. byte (set ∙ ap some e)) in
          let f = r.follows in
          record {
            after = r.after;
            returns = rw (range, set, told, interrupt) r.returns;
            follows = record {
              idt = f.idt;
              handlers = f.handlers;
              frames = f.frames;
              column = f.column;
              tick = f.tick;
              mode = f.mode;
            };
            halted = r.halted;
          }
    ]

no_byte :
    (b : Build) (id stack_addr : ℕ) (k : Kernel)
    → id < 256
    → k.interrupt_handlers id ≡ some keyboard
    → k.screen.hardware.input ≡ []
    → interrupt b id stack_addr k ≡ none
unfolding interrupt run_dispatch irq_handler run_handler keyboard_callback
no_byte b id stack_addr k low set empty =
    let range : ltb id 256 ≡ true = ground arith in
    let (log, told) = end_of_interrupt-log id k.screen.hardware in
    rw (range, set, told, empty, interrupt) refl

-- An interrupt of the keyboard that returns has read a byte.
pub interrupt-HasByte :
    (b : Build) (id stack_addr : ℕ) (k k' : Kernel)
    → id < 256
    → interrupt b id stack_addr k ≡ some (tt, k')
    → k.interrupt_handlers id ≡ some keyboard
    → HasByte k
interrupt-HasByte b id stack_addr k k' low e set = elim (input_cases k.screen.hardware.input) [
  | inl empty ↦
      let nothing_read = no_byte b id stack_addr k low set empty in
      absurd (none-ne-some _ (sym nothing_read ∙ e))
  | inr has ↦ has
]
