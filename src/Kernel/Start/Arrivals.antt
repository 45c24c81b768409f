-- ===== src/Kernel/Start/Arrivals.antt =====
-- The interrupts that arrive while the kernel starts, and the check that waits for the timer's.
use utero_archive.Base.{
  ℕ, ◌+◌, ◌^◌, ◌<◌, ◌≡◌, ◌≢◌, ◌⊎◌, inl, inr, refl, ap, ◌∙◌, arith, true, false, ◌==◌, if◌then◌else◌,
  Option, some, none, List, [], ◌∷◌, ◌++◌, Bool-cases, u32,
}
use utero_archive.Base.Memory.{Memory}
use utero_archive.Core.Isr.{irq0, exception_bp}
use utero_archive.Core.Timer.{timer_tick}
use utero_archive.Drivers.Keyboard.{irq1}
use utero_archive.Drivers.Screen.Within.{Within}
use utero_archive.Kernel.State.{
  Handler, breakpoint, timer, keyboard, Build, Kernel, ◌>>=◌, ◌>>◌, set_hardware,
}
use utero_archive.Kernel.Start.{Schedule, check_wait}
use utero_archive.Kernel.Runs.{Runs}
use utero_archive.Kernel.Runs.Served.{AllCalm, timers, is_timer, pause-Served, logged-Within}

-- Vectors of the processor other than the breakpoint's and the keyboard's.
abbrev pub AllLines : List ℕ → Type 0
AllLines [] = Unit {0}
AllLines (id ∷ ids) = (id < 256) × (id ≢ exception_bp) × (id ≢ irq1) × AllLines ids

-- How many are the timer's.
unfoldable pub ticks : List ℕ → ℕ
ticks [] = 0
ticks (id ∷ ids) = (if id == irq0 then 1 else 0) + ticks ids

abbrev pub AllQuiet : List (List ℕ) → Type 0
AllQuiet [] = Unit {0}
AllQuiet (ids ∷ more) = AllLines ids × (ticks ids ≡ 0) × AllQuiet more

-- No key is pressed, and an interrupt of the timer arrives before some test of the check, the first
-- of them with fewer than 2^32.
pub record IsSchedule (arrivals : Schedule) : Type 0 where
  pub after : (n : ℕ) → AllLines (arrivals.after n)
  pub quiet : List (List ℕ)
  pub first : List ℕ
  pub later : List (List ℕ)
  pub checks : arrivals.checks ≡ quiet ++ (first ∷ later)
  pub waits : AllQuiet quiet
  pub lines : AllLines first
  pub arrives : 0 < ticks first
  pub few : ticks first < 2 ^ 32

-- The handlers as the start registers them, one after the other.
abbrev pub with_breakpoint : (ℕ → Option Handler) → ℕ → Option Handler
with_breakpoint h n = if n == exception_bp then some breakpoint else h n

abbrev pub with_timer : (ℕ → Option Handler) → ℕ → Option Handler
with_timer h n = if n == irq0 then some timer else h n

abbrev pub with_keyboard : (ℕ → Option Handler) → ℕ → Option Handler
with_keyboard h n = if n == irq1 then some keyboard else h n

-- Handlers that no line but the timer's has.
abbrev pub IsCalm : (ℕ → Option Handler) → Type 0
IsCalm h = (n : ℕ) → n ≢ exception_bp → n ≢ irq1 → (h n ≡ none) ⊎ (h n ≡ some timer)

pub AllLines-AllCalm :
    (h : ℕ → Option Handler) (ids : List ℕ) → IsCalm h → AllLines ids → AllCalm h ids
AllLines-AllCalm h [] calm all = tt
AllLines-AllCalm h (id ∷ ids) calm (low, not_bp, not_key, all) =
    (low, calm id not_bp not_key, AllLines-AllCalm h ids calm all)

module _ (h : ℕ → Option Handler) (unset : (n : ℕ) → h n ≡ none) where
  pub with_breakpoint-IsCalm : IsCalm (with_breakpoint h)
  with_breakpoint-IsCalm n not_bp not_key =
      let other : (n == exception_bp) ≡ false = ground arith in inl (rw other (unset n))

  pub with_timer-IsCalm : IsCalm (with_timer (with_breakpoint h))
  with_timer-IsCalm n not_bp not_key = elim (Bool-cases (n == irq0)) [
    | inl its ↦ inr (rw its refl)
    | inr other ↦ rw other (with_breakpoint-IsCalm n not_bp not_key)
  ]

  pub with_keyboard-IsCalm : IsCalm (with_keyboard (with_timer (with_breakpoint h)))
  with_keyboard-IsCalm n not_bp not_key =
      let other : (n == irq1) ≡ false = ground arith in
      rw other (with_timer-IsCalm n not_bp not_key)

  timers-ticks :
      (ids : List ℕ) → AllLines ids → timers (with_timer (with_breakpoint h)) ids ≡ ticks ids
  unfolding timers ticks is_timer
  timers-ticks [] all = refl
  timers-ticks (id ∷ ids) (low, not_bp, not_key, all) = elim (Bool-cases (id == irq0)) [
    | inl its ↦ rw its (ap (λ n. 1 + n) (timers-ticks ids all))
    | inr other ↦
        let not_3 : (id == exception_bp) ≡ false = ground arith in
        rw (other, not_3, unset id) (ap (λ n. 0 + n) (timers-ticks ids all))
  ]

  -- The check ends with the first interrupts of the timer, whatever the tick was before.
  pub check_wait-Runs :
      {i : ℕ} {mem : Memory} {input : List ℕ} (b : Build) (quiet : List (List ℕ)) (first : List ℕ)
      (later : List (List ℕ)) (k : Kernel)
      → k.interrupt_handlers ≡ with_timer (with_breakpoint h)
      → k.interrupts_enabled ≡ true
      → AllQuiet quiet
      → AllLines first
      → 0 < ticks first
      → ticks first < 2 ^ 32
      → Within i mem input k.screen
      → k.tick < 2 ^ 32
      → Runs i mem input tt k (check_wait b (quiet ++ (first ∷ later)) k.tick) k
  unfolding check_wait timer_tick
  check_wait-Runs b [] first later k e on waits lines arrives few w small =
      let n = ticks first in
      let calm : AllCalm k.interrupt_handlers first =
        rw e (AllLines-AllCalm _ first with_timer-IsCalm lines) in
      let counts : timers k.interrupt_handlers first ≡ n = rw e (timers-ticks first lines) in
      let d = pause-Served b first k small calm on in
      let moved : (k.tick == u32 (k.tick + n)) ≡ false = ground arith in
      record {
        screen = record (k.screen) { hardware = record (k.screen.hardware) { log = d.log } };
        tick = u32 (k.tick + n);
        returns = rw (d.returns, counts, ◌>>◌, ◌>>=◌, moved) refl;
        within = logged-Within d.log w;
        small = omega arith;
      }
  check_wait-Runs b (ids ∷ quiet) first later k e on (own, none_yet, waits) lines arrives few w
        small =
      let calm : AllCalm k.interrupt_handlers ids =
        rw e (AllLines-AllCalm _ ids with_timer-IsCalm own) in
      let counts : timers k.interrupt_handlers ids ≡ 0 = rw e (timers-ticks ids own) ∙ none_yet in
      let d = pause-Served b ids k small calm on in
      let k1 = set_hardware (record (k.screen.hardware) { log = d.log }) k in
      let same : u32 (k.tick + 0) ≡ k.tick = omega arith in
      let still : (k.tick == k.tick) ≡ true = ground arith in
      let rest =
        check_wait-Runs b quiet first later k1 e on waits lines arrives few (logged-Within d.log w)
          small in
      record {
        screen = rest.screen;
        tick = rest.tick;
        returns = rw (d.returns, counts, same, ◌>>◌, ◌>>=◌, still) rest.returns;
        within = rest.within;
        small = rest.small;
      }
