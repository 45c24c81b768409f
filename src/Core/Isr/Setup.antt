-- ===== src/Core/Isr/Setup.antt =====
-- What the set-up of the interrupts leaves, and the registration of a handler.
use utero_archive.Base.{
  ℕ, zero, suc, ◌+◌, ◌-◌, ◌^◌, ◌≤◌, ◌<◌, ◌≡◌, ◌≢◌, ◌⊎◌, inl, inr, refl, ap, ◌∙◌, arith, true, false,
  ◌==◌, ltb, if◌then◌else◌, Option, some, List, Bool-cases,
}
use utero_archive.Core.Ports.{PortEvent}
use utero_archive.Core.Idt.{Idt, gate_offset, set_idt_gate_lem}
use utero_archive.Core.Isr.{
  set_gates, pic_init, Interrupts, register_interrupt_handler, isr_init, exception_bp,
}

-- The gates from `n` on lead to their handlers, and the others are as they were.
record GatesSet (n left : ℕ) (handler : ℕ → ℕ) (idt : Idt) (result : Option Idt) : Type 0 where
  after : Idt
  returns : result ≡ some after
  inside : (k : ℕ) → n ≤ k → k < n + left → gate_offset (after k) ≡ handler k
  outside : (k : ℕ) → ((k < n) ⊎ (n + left ≤ k)) → after k ≡ idt k

set_gates-GatesSet :
    (left n : ℕ) (handler : ℕ → ℕ) (idt : Idt)
    → n + left ≤ 256
    → ((k : ℕ) → handler k < 2 ^ 64)
    → GatesSet n left handler idt (set_gates left n handler idt)
unfolding set_gates
set_gates-GatesSet zero n handler idt h a = record {
  after = idt;
  returns = refl;
  inside = λ k p q. absurd (omega arith);
  outside = λ k p. refl;
}
set_gates-GatesSet (suc left) n handler idt h a =
    let (idt1, e, offset, sel, opts, others) =
      set_idt_gate_lem n (handler n) idt (omega arith) (a n) in
    let rest = set_gates-GatesSet left (n + 1) handler idt1 (omega arith) a in
    rw (e, set_gates)
      (record {
        after = rest.after;
        returns = rest.returns;
        inside = λ k p q. elim (Bool-cases (k == n)) [
          | inl here ↦
              let e : k ≡ n = ground arith in
              rw e (ap gate_offset (rest.outside n (inl (omega arith))) ∙ offset)
          | inr later ↦ rest.inside k (ground arith) (omega arith)
        ];
        outside = λ k p. rest.outside k (omega arith) ∙ others k (λ e. absurd (omega arith));
      })

-- What `isr_init` leaves: the exceptions and the first five interrupt lines lead to their entry
-- points, the breakpoint to its handler, and the rest of both arrays is as it was.
pub record IsInitialised {ℓ} {H : Type ℓ} (isr irq : ℕ → ℕ) (breakpoint_handler : H)
    (s : Interrupts H) (result : Option (Interrupts H)) : Type ℓ where
  pub after : Interrupts H
  pub returns : result ≡ some after
  pub log : List PortEvent
  pub shape : after ≡ record {
    idt = after.idt;
    interrupt_handlers =
        λ k. if k == exception_bp then some breakpoint_handler else s.interrupt_handlers k;
    hardware = record (s.hardware) { log = log };
  }
  pub exceptions : (k : ℕ) → k < 32 → gate_offset (after.idt k) ≡ isr k
  pub lines : (k : ℕ) → k < 5 → gate_offset (after.idt (32 + k)) ≡ irq k
  pub others : (k : ℕ) → 37 ≤ k → after.idt k ≡ s.idt k
  pub breakpoint : after.interrupt_handlers exception_bp ≡ some breakpoint_handler
  pub handlers : (k : ℕ) → k ≢ exception_bp → after.interrupt_handlers k ≡ s.interrupt_handlers k

-- `isr_init` returns: vectors 0 to 31 lead to the exceptions' entry points and vectors 32 to 36 to
-- those of the interrupt lines 0 to 4, vectors from 37 on have no new gate, of the handlers the
-- breakpoint's alone is registered, and of the hardware only the ports are told something.
pub isr_init-IsInitialised {ℓ} :
    {H : Type ℓ} (isr irq : ℕ → ℕ) (breakpoint_handler : H) (s : Interrupts H)
    → ((k : ℕ) → isr k < 2 ^ 64)
    → ((k : ℕ) → irq k < 2 ^ 64)
    → IsInitialised isr irq breakpoint_handler s (isr_init isr irq breakpoint_handler s)
unfolding isr_init register_interrupt_handler
isr_init-IsInitialised isr irq handler s a b =
    let low = set_gates-GatesSet 32 0 isr s.idt (omega arith) a in
    let high =
      set_gates-GatesSet 5 32 (λ n. irq (n - 32)) low.after (omega arith) (λ k. b (k - 32)) in
    rw (low.returns, high.returns, isr_init)
      (record {
        after = record {
          idt = high.after;
          interrupt_handlers =
              λ k. if k == exception_bp then some handler else s.interrupt_handlers k;
          hardware = pic_init s.hardware;
        };
        returns = refl;
        log = (pic_init s.hardware).log;
        shape = unfold pic_init in refl;
        exceptions = λ k h.
            ap gate_offset (high.outside k (inl h)) ∙ low.inside k (omega arith) (omega arith);
        lines = λ k h. high.inside (32 + k) (omega arith) (omega arith) ∙ ap irq (omega arith);
        others = λ k h. high.outside k (inr (omega arith)) ∙ low.outside k (inr (omega arith));
        breakpoint = refl;
        handlers = λ k ne. let other : (k == exception_bp) ≡ false = ground arith in rw other refl;
      })

abbrev pub registered {ℓ} : {H : Type ℓ} → ℕ → H → Interrupts H → Interrupts H
registered id handler s = record s {
  interrupt_handlers = λ k. if k == id then some handler else s.interrupt_handlers k;
}

pub register_interrupt_handler-registered {ℓ} :
    {H : Type ℓ} (id : ℕ) (handler : H) (s : Interrupts H)
    → id < 256
    → register_interrupt_handler id handler s ≡ some (registered id handler s)
unfolding register_interrupt_handler
register_interrupt_handler-registered id handler s h =
    let inside : ltb id 256 ≡ true = ground arith in rw inside refl
