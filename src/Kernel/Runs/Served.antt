-- ===== src/Kernel/Runs/Served.antt =====
-- The interrupts of lines that have no handler, or the timer's, and the parts' operations on their
-- shares of the state.
use utero_archive.Base.{
  ℕ, ◌+◌, ◌^◌, ◌<◌, ◌≡◌, ◌⊎◌, inl, inr, refl, ap, ◌∙◌, arith, true, ltb, leb, if◌then◌else◌, Option,
  some, none, List, [], ◌∷◌, Bool-cases, u32,
}
use utero_archive.Base.Memory.{Memory}
use utero_archive.Core.Ports.{Hardware, PortEvent, Io}
use utero_archive.Core.Idt.{Idt}
use utero_archive.Core.Isr.{Interrupts, irq_handler, end_of_interrupt}
use utero_archive.Core.Timer.{timer_callback}
use utero_archive.Drivers.Screen.{Screen}
use utero_archive.Drivers.Screen.Within.{Within}
use utero_archive.Kernel.State.{
  Handler, breakpoint, timer, keyboard, Build, Kernel, ◌>>=◌, ◌>>◌, set_hardware, on_hardware,
  interrupts, on_interrupts,
}
use utero_archive.Kernel.Dispatch.{interrupt, run_dispatch, run_handler, deliver, pause}
use utero_archive.Kernel.Runs.{Runs}

-- How many of the interrupts of some lines are the timer's.
unfoldable pub is_timer : Option Handler → ℕ
is_timer none = 0
is_timer (some breakpoint) = 0
is_timer (some timer) = 1
is_timer (some keyboard) = 0

unfoldable pub timers : (ℕ → Option Handler) → List ℕ → ℕ
timers handlers [] = 0
timers handlers (id ∷ ids) = is_timer (handlers id) + timers handlers ids

-- Lines that have no handler, or the timer's.
abbrev pub AllCalm : (ℕ → Option Handler) → List ℕ → Type 0
AllCalm handlers [] = Unit {0}
AllCalm handlers (id ∷ ids) =
    (id < 256) × ((handlers id ≡ none) ⊎ (handlers id ≡ some timer)) × AllCalm handlers ids

-- Such interrupts only count and tell the controllers.
pub record Served (n : ℕ) (k : Kernel) (result : Option (Unit {0} × Kernel)) : Type 0 where
  pub log : List PortEvent
  pub returns :
      result
      ≡ some (
        tt,
        record (set_hardware (record (k.screen.hardware) { log = log }) k) {
          tick = u32 (k.tick + n);
        },
      )

pub end_of_interrupt-log :
    (id : ℕ) (hw : Hardware)
    → (log : List PortEvent) × (end_of_interrupt id hw ≡ record hw { log = log })
unfolding end_of_interrupt
end_of_interrupt-log id hw = elim (Bool-cases (leb 40 id)) [
  | inl second ↦ ((end_of_interrupt id hw).log, rw second refl)
  | inr first ↦ ((end_of_interrupt id hw).log, rw first refl)
]

pub interrupt-Served :
    (b : Build) (id stack : ℕ) (k : Kernel)
    → id < 256
    → k.tick < 2 ^ 32
    → (k.interrupt_handlers id ≡ none) ⊎ (k.interrupt_handlers id ≡ some timer)
    → Served (is_timer (k.interrupt_handlers id)) k (interrupt b id stack k)
unfolding interrupt run_dispatch run_handler timer_callback irq_handler is_timer
interrupt-Served b id stack k low small (inl unset) =
    let range : ltb id 256 ≡ true = ground arith in
    let (log, told) = end_of_interrupt-log id k.screen.hardware in
    let same : k.tick ≡ u32 (k.tick + 0) = omega arith in
    record {
      log = log;
      returns =
          rw (range, unset, told, interrupt)
            (ap
              (λ t. some (
                tt,
                record (set_hardware (record (k.screen.hardware) { log = log }) k) { tick = t },
              ))
              same);
    }
interrupt-Served b id stack k low small (inr set) =
    let range : ltb id 256 ≡ true = ground arith in
    let (log, told) = end_of_interrupt-log id k.screen.hardware in
    record { log = log; returns = rw (range, set, told, interrupt) refl }

deliver-Served :
    (b : Build) (ids : List ℕ) (k : Kernel)
    → k.tick < 2 ^ 32
    → AllCalm k.interrupt_handlers ids
    → Served (timers k.interrupt_handlers ids) k (deliver b ids k)
unfolding deliver timers
deliver-Served b [] k small calm = record {
  log = k.screen.hardware.log;
  returns = ap (λ t. some (tt, record k { tick = t })) (omega arith);
}
deliver-Served b (id ∷ ids) k small (low, own, calm) =
    let n = is_timer (k.interrupt_handlers id) in
    let one = interrupt-Served b id b.stack k low small own in
    let k1 = record (set_hardware (record (k.screen.hardware) { log = one.log }) k) {
      tick = u32 (k.tick + n);
    } in
    let rest = deliver-Served b ids k1 (omega arith) calm in
    let sum : u32 (u32 (k.tick + n) + timers k.interrupt_handlers ids)
        ≡ u32 (k.tick + (n + timers k.interrupt_handlers ids)) =
      omega arith in
    record {
      log = rest.log;
      returns =
          rw (one.returns, ◌>>◌, ◌>>=◌, deliver)
            (rest.returns
              ∙ ap
                  (λ t. some (
                    tt,
                    record (set_hardware (record (k.screen.hardware) { log = rest.log }) k) {
                      tick = t;
                    },
                  ))
                  sum);
    }

pub pause-Served :
    (b : Build) (ids : List ℕ) (k : Kernel)
    → k.tick < 2 ^ 32
    → AllCalm k.interrupt_handlers ids
    → k.interrupts_enabled ≡ true
    → Served (timers k.interrupt_handlers ids) k (pause b ids k)
unfolding pause
pause-Served b ids k small calm enabled =
    let d = deliver-Served b ids k small calm in
    record {
      log = d.log;
      returns = ap (λ e. if e then deliver b ids k else some (tt, k)) enabled ∙ d.returns;
    }

pub logged-Within :
    {i : ℕ} {mem : Memory} {input : List ℕ} {s : Screen} (log : List PortEvent)
    → Within i mem input s
    → Within i mem input (record s { hardware = record (s.hardware) { log = log } })
logged-Within log w = record {
  buffer = w.buffer;
  column = w.column;
  placed = w.placed;
  memory = w.memory;
  unread = w.unread;
}

pub pause-Runs :
    {i : ℕ} {mem : Memory} {input : List ℕ} (b : Build) (ids : List ℕ) (k : Kernel)
    → Within i mem input k.screen
    → k.tick < 2 ^ 32
    → AllCalm k.interrupt_handlers ids
    → k.interrupts_enabled ≡ true
    → Runs i mem input tt k (pause b ids) k
pause-Runs b ids k w small calm enabled =
    let d = pause-Served b ids k small calm enabled in
    record {
      screen = record (k.screen) { hardware = record (k.screen.hardware) { log = d.log } };
      tick = u32 (k.tick + timers k.interrupt_handlers ids);
      returns = d.returns;
      within = logged-Within d.log w;
      small = omega arith;
    }

-- The parts' operations on their shares of the state.
pub interrupts-Runs :
    {i : ℕ} {mem : Memory} {input : List ℕ} (f : Interrupts Handler → Option (Interrupts Handler))
    (k : Kernel) (d : Idt) (h : ℕ → Option Handler) (log : List PortEvent)
    → f (interrupts k)
      ≡ some (record {
        idt = d;
        interrupt_handlers = h;
        hardware = record (k.screen.hardware) { log = log };
      })
    → Within i mem input k.screen
    → k.tick < 2 ^ 32
    → Runs i mem input tt (record k { idt = d; interrupt_handlers = h }) (on_interrupts f) k
interrupts-Runs f k d h log e w small = record {
  screen = record (k.screen) { hardware = record (k.screen.hardware) { log = log } };
  tick = k.tick;
  returns = rw e refl;
  within = logged-Within log w;
  small = small;
}

pub hardware-Runs :
    {A : Type 0} {i : ℕ} {mem : Memory} {input : List ℕ} (m : Io A) (k : Kernel) (a : A)
    (log : List PortEvent)
    → m k.screen.hardware ≡ some (a, record (k.screen.hardware) { log = log })
    → Within i mem input k.screen
    → k.tick < 2 ^ 32
    → Runs i mem input a k (on_hardware m) k
hardware-Runs m k a log e w small = record {
  screen = record (k.screen) { hardware = record (k.screen.hardware) { log = log } };
  tick = k.tick;
  returns = rw e refl;
  within = logged-Within log w;
  small = small;
}
