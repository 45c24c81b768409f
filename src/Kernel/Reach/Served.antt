-- ===== src/Kernel/Reach/Served.antt =====
-- What holds of every state that the kernel reaches behind its start.
use mathlib.Core.Option.{some-injective}
use utero_archive.Base.{
  ℕ, ◌+◌, ◌%◌, ◌^◌, ◌≤◌, ◌<◌, ◌≡◌, ◌≢◌, ◌⊎◌, inl, inr, sym, ap, ◌∙◌, arith, not, false, ◌==◌,
  Option, some, none, Bool-cases,
}
use utero_archive.Core.Idt.{gate_offset}
use utero_archive.Drivers.Screen.{screen_width}
use utero_archive.Core.Boot.{multiboot2_magic_value}
use utero_archive.Core.Isr.{exception_bp, irq0}
use utero_archive.Drivers.Keyboard.{irq1}
use utero_archive.Kernel.State.{Handler, breakpoint, timer, keyboard, Build, Kernel}
use utero_archive.Kernel.Dispatch.{exception, interrupt}
use utero_archive.Kernel.Panic.Halting.{IsLocation}
use utero_archive.Kernel.Start.{Schedule, kmain}
use utero_archive.Kernel.Start.Whole.{IsMachine}
use utero_archive.Kernel.Start.Started.{IsSetUp, kmain-Started}
use utero_archive.Kernel.Reach.{Reach}
use utero_archive.Kernel.Reach.Outcome.{
  is_unhandled, IsAlive, IsStopped, IsServing, HasByte, exception-Returns, interrupt-Returns,
}
use utero_archive.Kernel.Reach.Steady.{reach-Follows, reach-IsServing}

abbrev number_of : Option Handler → ℕ
number_of none = 0
number_of (some breakpoint) = 1
number_of (some timer) = 2
number_of (some keyboard) = 3

-- The vectors with a handler.
vector_cases :
    (n : ℕ)
    → (n ≡ exception_bp)
      ⊎ ((n ≡ irq0) ⊎ ((n ≡ irq1) ⊎ ((n ≢ exception_bp) × (n ≢ irq0) × (n ≢ irq1))))
vector_cases n = ground arith

set_up-keys :
    {b : Build} {arrivals : Schedule} {k0 k : Kernel} {machine : IsMachine b arrivals k0}
    → IsSetUp b arrivals k0 machine k
    → (n : ℕ) → k.interrupt_handlers n ≡ some keyboard
    → n ≡ irq1
set_up-keys {k = k} set n e =
    let number = ap number_of e in
    let at : (m : ℕ) → n ≡ m → number_of (k.interrupt_handlers m) ≡ 3 =
      λ m same. ap (λ x. number_of (k.interrupt_handlers x)) (sym same) ∙ number in
    elim (vector_cases n) [
      | inl bp ↦ absurd (omega (arith, at exception_bp bp, ap number_of set.on_breakpoint))
      | inr (inl its) ↦ absurd (omega (arith, at irq0 its, ap number_of set.on_timer))
      | inr (inr (inl its)) ↦ its
      | inr (inr (inr (not_bp, not_timer, not_key))) ↦
          absurd (omega (arith, number, ap number_of (set.unhandled n not_bp not_timer not_key)))
    ]

-- The one exception with a handler is the breakpoint.
set_up-is_unhandled :
    {b : Build} {arrivals : Schedule} {k0 k : Kernel} {machine : IsMachine b arrivals k0}
    → IsSetUp b arrivals k0 machine k
    → (id : ℕ) → id < 32
    → is_unhandled (k.interrupt_handlers id) ≡ not (id == exception_bp)
set_up-is_unhandled {k = k} set id low = elim (Bool-cases (id == exception_bp)) [
  | inl its ↦
      let same : id ≡ exception_bp = ground arith in rw same (ap is_unhandled set.on_breakpoint)
  | inr other ↦
      rw other (ap is_unhandled (set.unhandled id (ground arith) (omega arith) (omega arith)))
]

set_up-IsServing :
    {b : Build} {arrivals : Schedule} {k0 k : Kernel} {machine : IsMachine b arrivals k0}
    → IsSetUp b arrivals k0 machine k
    → IsAlive k
    → k.screen.screen_col < screen_width
    → k.tick < 2 ^ 32
    → IsServing k
set_up-IsServing {k = k} set alive column tick = record {
  alive = alive;
  column = column;
  tick = tick;
  keys = set_up-keys set;
}

module _ (b : Build) (arrivals : Schedule) (k0 : Kernel) (machine : IsMachine b arrivals k0)
    (aligned : machine.mbi % 8 ≡ 0) (running : k0.halted ≡ false) (loc : IsLocation b.isr_panic)
    (k k' : Kernel)
    (started : kmain b arrivals multiboot2_magic_value machine.mbi k0 ≡ some (tt, k))
    (reach : Reach b k k') where
  started-IsSetUp : IsSetUp b arrivals k0 machine k × IsServing k
  started-IsSetUp =
      let s = kmain-Started b arrivals k0 machine aligned in
      let same : k ≡ s.after = ap (λ p. p.1) (some-injective _ _ (sym started ∙ s.returns)) in
      rw same
        (s.set_up, set_up-IsServing s.set_up (s.halted ∙ running, s.enabled) s.screen.column s.tick)

  -- In every state that exceptions, interrupts and keys lead to behind a start, with a place of the
  -- panic that has no tab and a line below 2^31, the gates, the handlers and the memory map are still
  -- those that the start set up, the cursor is on a column of the screen, and either interrupts are
  -- enabled or the kernel is halted with them disabled.
  pub kmain-IsSetUp :
      IsSetUp b arrivals k0 machine k'
      × (k'.screen.screen_col < screen_width)
      × (IsAlive k' ⊎ IsStopped k')
  kmain-IsSetUp =
      let (s, serving) = started-IsSetUp in
      let f = reach-Follows b loc k serving k' reach in
      let gates = f.idt in
      let handlers = f.handlers in
      (
        record {
          exceptions = λ n low. ap (λ t. gate_offset (t n)) f.idt ∙ s.exceptions n low;
          lines = λ n low. ap (λ t. gate_offset (t (32 + n))) f.idt ∙ s.lines n low;
          on_breakpoint = ap (λ h. h exception_bp) f.handlers ∙ s.on_breakpoint;
          on_timer = ap (λ h. h irq0) f.handlers ∙ s.on_timer;
          on_key = ap (λ h. h irq1) f.handlers ∙ s.on_key;
          unhandled = λ n a c d. ap (λ h. h n) f.handlers ∙ s.unhandled n a c d;
          frames = f.frames ∙ s.frames;
        },
        f.column,
        f.mode,
      )

  module _ (live : k'.halted ≡ false) where
    pub now : IsServing k'
    now = let (s, serving) = started-IsSetUp in reach-IsServing b loc k serving k' reach live

    -- In every such state that is not halted any exception returns, and halts the kernel exactly if it
    -- is not the breakpoint.
    pub kmain-exception :
        (id stack_addr : ℕ)
        → id < 32
        → (after : Kernel) × (exception b id stack_addr k' ≡ some (tt, after))
          × (after.halted ≡ not (id == exception_bp))
    kmain-exception id stack_addr low =
        let r = exception-Returns b id stack_addr k' low loc now in
        (r.after, r.returns, r.halted ∙ set_up-is_unhandled kmain-IsSetUp.0 id low)

    -- In every such state that is not halted an interrupt of any line returns without a halt, the
    -- keyboard's if its device has a byte to read.
    pub kmain-interrupt :
        (id stack_addr : ℕ)
        → 32 ≤ id
        → id < 256
        → (id ≡ irq1 → HasByte k')
        → (after : Kernel) × (interrupt b id stack_addr k' ≡ some (tt, after))
          × (after.halted ≡ false)
    kmain-interrupt id stack_addr high low byte =
        let r = interrupt-Returns b id stack_addr k' low now (λ e. byte (now.keys id e)) in
        (r.after, r.returns, r.halted)
