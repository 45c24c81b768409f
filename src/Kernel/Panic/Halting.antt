-- ===== src/Kernel/Panic/Halting.antt =====
-- A panic stops the system, whatever it was called with.
use utero_archive.Base.{ℕ, ◌^◌, ◌<◌, ◌≡◌, refl, ◌∙◌, true, false, Option, some, List, [], ◌∷◌}
use utero_archive.Base.Text.{codes}
use utero_archive.Drivers.Screen.{Screen, screen_width, screen_print}
use utero_archive.Drivers.Screen.Cursor.{screen_write-Moved}
use utero_archive.Libk.Printfk.{Arg, device_screen, vprintfk, printfk, putsk, isdigitk}
use utero_archive.Libk.Printfk.Render.{render, parse_format, render_all, render_directive}
use utero_archive.Libk.Printfk.Printing.{vprintfk-render}
use utero_archive.Kernel.State.{Kernel, Location, ◌>>=◌, ◌>>◌, put_screen, on_screen}
use utero_archive.Kernel.Texts.{NoTab, NoTab-head}
use utero_archive.Kernel.Panic.{kernel_panic}

-- The places that a panic names have no tabs and a line below 2^31.
pub record IsLocation (at : Location) : Type 0 where
  pub file : NoTab at.file
  pub line : at.line < 2 ^ 31
  pub function : NoTab at.function

-- A text was printed, and the cursor is on a column of the screen.
pub record Shown (result : Option Screen) : Type 0 where
  pub after : Screen
  pub returns : result ≡ some after
  pub on_screen : after.screen_col < screen_width

pub screen_print-Shown :
    (str : List ℕ) (s : Screen)
    → NoTab str
    → s.screen_col < screen_width
    → Shown (screen_print str s)
unfolding screen_print
screen_print-Shown [] s plain col = record { after = s; returns = refl; on_screen = col }
screen_print-Shown (c ∷ str) s p col =
    let (no_tab, plain) = NoTab-head c str p in
    let m = screen_write-Moved c s col (λ t. no_tab t.0) in
    let rest = screen_print-Shown str m.after plain m.on_screen in
    record {
      after = rest.after;
      returns = rw (m.returns, screen_print) rest.returns;
      on_screen = rest.on_screen;
    }

pub printed-Shown :
    (waits : ℕ) (format : List ℕ) (args : List Arg) (str : List ℕ) (s : Screen)
    → render format args ≡ some str
    → NoTab str
    → s.screen_col < screen_width
    → Shown (vprintfk waits device_screen format args s)
unfolding putsk
printed-Shown waits format args str s e plain col =
    let p = screen_print-Shown str s plain col in
    record {
      after = p.after;
      returns = vprintfk-render waits device_screen format args s ∙ rw e p.returns;
      on_screen = p.on_screen;
    }

-- The kernel behind a panic: halted, with interrupts disabled; of the rest only the screen, which
-- has the hardware in it, changed, and its cursor is on a column.
pub record Halted (k : Kernel) (result : Option (Unit {0} × Kernel)) : Type 0 where
  pub screen : Screen
  pub returns :
      result ≡ some (tt, record k { screen = screen; interrupts_enabled = false; halted = true })
  pub column : screen.screen_col < screen_width

halted_text : render (codes "\nSystem halted!\n") [] ≡ some (codes "\nSystem halted!\n")
unfolding render parse_format render_all render_directive isdigitk
halted_text = refl

-- A panic whose text is defined and has no tab, from a column of the screen, returns with the
-- kernel halted.
pub kernel_panic-Halted :
    (waits : ℕ) (format : List ℕ) (args : List Arg) (str : List ℕ) (k : Kernel)
    → render format args ≡ some str
    → NoTab str
    → k.screen.screen_col < screen_width
    → Halted k (kernel_panic waits format args k)
unfolding kernel_panic printfk
kernel_panic-Halted waits format args str k e plain col =
    let first = printed-Shown waits format args str k.screen e plain col in
    let second =
      printed-Shown waits (codes "\nSystem halted!\n") [] (codes "\nSystem halted!\n") first.after
        halted_text refl first.on_screen in
    record {
      screen = second.after;
      returns = rw (first.returns, ◌>>◌, ◌>>=◌, on_screen, put_screen, second.returns) refl;
      column = second.on_screen;
    }
