-- ===== src/Kernel/Reach/Steady.antt =====
-- What every state has that is reached from one in which interrupts are served.
use mathlib.Core.Option.{some-injective}
use utero_archive.Base.{◌≡◌, inl, inr, refl, sym, ap, ◌∙◌, arith, Bool, false, Option, some}
use utero_archive.Kernel.State.{Build, Kernel}
use utero_archive.Kernel.Panic.Halting.{IsLocation}
use utero_archive.Kernel.Reach.{Moves, fault, line, key, Reach, start, later}
use utero_archive.Kernel.Reach.Outcome.{
  IsServing, Follows, Returns, exception-Returns, interrupt-Returns, interrupt-HasByte,
}

-- A state in which the kernel is not halted serves interrupts like the first one.
still-IsServing : {k k' : Kernel} → IsServing k → Follows k k' → k'.halted ≡ false → IsServing k'
still-IsServing {k' = k'} serving f running = elim f.mode [
  | inl alive ↦ record {
    alive = alive;
    column = f.column;
    tick = f.tick;
    keys = λ n e. serving.keys n (ap (λ h. h n) (sym f.handlers) ∙ e);
  }
  | inr stopped ↦ let (halted, off) = stopped in absurd (ground arith)
]

then-Follows : {k k1 k2 : Kernel} → Follows k k1 → Follows k1 k2 → Follows k k2
then-Follows f g = record {
  idt = g.idt ∙ f.idt;
  handlers = g.handlers ∙ f.handlers;
  frames = g.frames ∙ f.frames;
  column = g.column;
  tick = g.tick;
  mode = g.mode;
}

returned-Follows :
    {halts : Bool} {k k' : Kernel} {result : Option (Unit {0} × Kernel)}
    → Returns halts k result
    → result ≡ some (tt, k')
    → Follows k k'
returned-Follows {k' = k'} r e =
    let same : k' ≡ r.after = ap (λ p. p.1) (some-injective _ _ (sym e ∙ r.returns)) in
    rw same r.follows

module _ (b : Build) (loc : IsLocation b.isr_panic) (k : Kernel) (serving : IsServing k) where
  moved-Follows : (k1 k2 : Kernel) → Follows k k1 → Moves b k1 k2 → Follows k1 k2
  moved-Follows k1 k2 f (fault id stack_addr low running e) =
      returned-Follows
        (exception-Returns b id stack_addr k1 low loc (still-IsServing serving f running)) e
  moved-Follows k1 k2 f (line id stack_addr high low running enabled e) =
      returned-Follows
        (interrupt-Returns b id stack_addr k1 low (still-IsServing serving f running)
          (interrupt-HasByte b id stack_addr k1 k2 low e))
        e
  moved-Follows k1 k2 f (key code) = record {
    idt = refl;
    handlers = refl;
    frames = refl;
    column = f.column;
    tick = f.tick;
    mode = f.mode;
  }

  pub reach-Follows : (k' : Kernel) → Reach b k k' → Follows k k'
  reach-Follows k' start = record {
    idt = refl;
    handlers = refl;
    frames = refl;
    column = serving.column;
    tick = serving.tick;
    mode = inl serving.alive;
  }
  reach-Follows k' (later {k1 = k1} r m) =
      let f = reach-Follows k1 r in then-Follows f (moved-Follows k1 k' f m)

  pub reach-IsServing : (k' : Kernel) → Reach b k k' → k'.halted ≡ false → IsServing k'
  reach-IsServing k' r = still-IsServing serving (reach-Follows k' r)
