-- ===== src/Kernel/Runs.antt =====
-- What a part of the start does: it returns, the screen stays within the display, and of the rest
-- of the state only what is said changes, and the tick.
pub mod Served
use utero_archive.Base.{
  ℕ, ◌+◌, ◌^◌, ◌≤◌, ◌<◌, ◌≡◌, ◌⊎◌, inl, inr, refl, ap, ◌∙◌, arith, true, ltb, leb, if◌then◌else◌,
  Option, some, none, List, [], ◌∷◌, length, Bool-cases, u32,
}
use utero_archive.Base.Memory.{Memory}
use utero_archive.Core.Ports.{Hardware, PortEvent, Io}
use utero_archive.Core.Idt.{Idt}
use utero_archive.Core.Isr.{Interrupts, irq_handler, end_of_interrupt}
use utero_archive.Core.Timer.{timer_callback}
use utero_archive.Drivers.Screen.{Screen}
use utero_archive.Drivers.Screen.Within.{Within, screen_print-Stays}
use utero_archive.Libk.Printfk.{Arg, printfk, putsk, device_screen}
use utero_archive.Libk.Printfk.Render.{render, parse_format}
use utero_archive.Libk.Printfk.Printing.{vprintfk-render}
use utero_archive.Kernel.State.{
  Handler, breakpoint, timer, keyboard, Build, Kernel, Step, ◌>>=◌, ◌>>◌, set_hardware, on_hardware,
  interrupts, on_interrupts,
}
use utero_archive.Kernel.Dispatch.{interrupt, run_dispatch, run_handler, deliver, pause}
use utero_archive.Kernel.Start.{print}
use utero_archive.Kernel.Texts.{Renders}

-- `m` returns `a` from the state `k`; `next` is the state behind it, but for its screen and its tick.
pub record Runs {A : Type 0} (i : ℕ) (mem : Memory) (input : List ℕ) (a : A) (next : Kernel)
    (m : Step A) (k : Kernel) : Type 0 where
  pub screen : Screen
  pub tick : ℕ
  pub returns : m k ≡ some (a, record next { screen = screen; tick = tick })
  pub within : Within i mem input screen
  pub small : tick < 2 ^ 32

abbrev pub shows : Screen → ℕ → Kernel → Kernel
shows s tick k = record k { screen = s; tick = tick }

-- The rest, from each state that the first part may leave.
pub then-Runs :
    {A B : Type 0} {i j : ℕ} {mem : Memory} {input input' : List ℕ} {a : A} {c : B}
    {k k1 k2 : Kernel} (m : Step A) (f : A → Step B)
    → Runs i mem input a k1 m k
    → ((s : Screen) (tick : ℕ)
        → Within i mem input s
        → tick < 2 ^ 32
        → Runs j mem input' c (shows s tick k2) (f a) (shows s tick k1))
    → Runs j mem input' c k2 (m >>= f) k
then-Runs m f r rest =
    let q = rest r.screen r.tick r.within r.small in
    record {
      screen = q.screen;
      tick = q.tick;
      returns = rw (r.returns, ◌>>=◌) q.returns;
      within = q.within;
      small = q.small;
    }

pub and-Runs :
    {B : Type 0} {i j : ℕ} {mem : Memory} {input input' : List ℕ} {c : B} {k k1 k2 : Kernel}
    (m : Step (Unit {0})) (rest : Step B)
    → Runs i mem input tt k1 m k
    → ((s : Screen) (tick : ℕ)
        → Within i mem input s
        → tick < 2 ^ 32
        → Runs j mem input' c (shows s tick k2) rest (shows s tick k1))
    → Runs j mem input' c k2 (m >> rest) k
and-Runs m rest = then-Runs m (λ u. rest)

-- The screen and the tick of the state behind are not said.
pub shown :
    {A : Type 0} {i : ℕ} {mem : Memory} {input : List ℕ} {a : A} {next k : Kernel} {m : Step A}
    {s : Screen} {tick : ℕ}
    → Runs i mem input a next m k
    → Runs i mem input a (shows s tick next) m k
shown r = record {
  screen = r.screen;
  tick = r.tick;
  returns = r.returns;
  within = r.within;
  small = r.small;
}

-- A computation that depends on the state that it starts from.
pub here-Runs :
    {A : Type 0} {i : ℕ} {mem : Memory} {input : List ℕ} {a : A} {k k2 : Kernel}
    (m : Kernel → Step A)
    → Runs i mem input a k2 (m k) k
    → Runs i mem input a k2 (λ k'. m k' k') k
here-Runs m r = record {
  screen = r.screen;
  tick = r.tick;
  returns = r.returns;
  within = r.within;
  small = r.small;
}

pub print-Runs :
    {n i : ℕ} {mem : Memory} {input : List ℕ} (b : Build) (format : List ℕ) (args : List Arg)
    (k : Kernel)
    → Renders n (parse_format (length format) format) args
    → Within i mem input k.screen
    → k.tick < 2 ^ 32
    → i + n ≤ 1920
    → Runs (i + n) mem input tt k (print b format args) k
unfolding printfk putsk render
print-Runs b format args k r w small low =
    let p = screen_print-Stays r.str k.screen w (omega (arith, r.short)) r.plain in
    record {
      screen = p.after;
      tick = k.tick;
      returns =
          rw (vprintfk-render b.waits device_screen format args k.screen, r.renders, p.returns)
            refl;
      within = record {
        buffer = p.within.buffer;
        column = p.within.column;
        placed = omega (arith, p.within.placed, r.short);
        memory = p.within.memory;
        unread = p.within.unread;
      };
      small = small;
    }
