-- ===== src/Drivers/Screen/Lines.antt =====
-- Line ends at the bottom of the display (src/drivers/screen.c): they do not scroll.
use utero_archive.Base.{
  ℕ, zero, suc, ◌+◌, ◌-◌, ◌*◌, ◌≤◌, ◌<◌, ◌≡◌, refl, sym, ap, ◌∙◌, arith, false, ◌==◌, Option, some,
  List, [], ◌∷◌, u16,
}
use utero_archive.Drivers.Screen.{
  Screen, advance, scroll, set_memory, video_address, screen_width, move_cursor, put, screen_write,
  screen_print,
}
use utero_archive.Drivers.Screen.Cursor.{IsPlain, stored, write_scrolls, put-plain}
use utero_archive.Drivers.Screen.Scroll.{scroll_lem}

abbrev pub line_ends : ℕ → List ℕ → List ℕ
line_ends zero str = str
line_ends (suc n) str = b'\n' ∷ line_ends n str

-- The state behind some line ends, from which the rest is printed.
record Lowered (n : ℕ) (str : List ℕ) (s : Screen) : Type 0 where
  pub after : Screen
  pub prints : screen_print (line_ends n str) s ≡ screen_print str after
  pub column : after.screen_col ≡ s.screen_col
  pub row : after.screen_row ≡ s.screen_row + n
  pub buffer : after.framebuffer ≡ s.framebuffer
  pub memory : after.hardware.memory ≡ s.hardware.memory

line_ends-Lowered : (n : ℕ) (str : List ℕ) (s : Screen) → s.screen_col ≡ 0 → Lowered n str s
unfolding screen_print screen_write put move_cursor
line_ends-Lowered zero str s left = record {
  after = s;
  prints = refl;
  column = refl;
  row = omega arith;
  buffer = refl;
  memory = refl;
}
line_ends-Lowered (suc n) str s left =
    let lower = record s { screen_col = 0; screen_row = s.screen_row + 1 } in
    let s1 = move_cursor (u16 (lower.screen_row * screen_width + lower.screen_col)) lower in
    let rest = line_ends-Lowered n str s1 refl in
    record {
      after = rest.after;
      prints = rest.prints;
      column = rest.column ∙ sym left;
      row = omega (arith, rest.row);
      buffer = rest.buffer;
      memory = rest.memory;
    }

advance-next :
    (s : Screen) → s.screen_col < 79 → advance s ≡ record s { screen_col = s.screen_col + 1 }
unfolding advance
advance-next s room =
    let more : (s.screen_col + 1 == screen_width) ≡ false = ground arith in rw more refl

-- A character that stands behind the display, where nothing is shown and no scroll moves it.
pub record Lost (n c : ℕ) (s : Screen) (result : Option Screen) : Type 0 where
  pub after : Screen
  pub returns : result ≡ some after
  pub written : after.hardware.memory (video_address + 160 * (s.screen_row + n)) ≡ c
  pub row : after.screen_row ≡ s.screen_row + n - 1
  pub column : after.screen_col ≡ 1

-- From the first column, line ends that lead to row 25 or below and a plain character are printed
-- without a scroll of those rows: the character is stored behind the 4000 bytes of the display, and
-- the cursor goes up by one row only.
pub screen_print-Lost :
    (n c : ℕ) (s : Screen)
    → s.framebuffer ≡ video_address
    → s.screen_col ≡ 0
    → 25 ≤ s.screen_row + n
    → IsPlain c s
    → Lost n c s (screen_print (line_ends n (c ∷ [])) s)
unfolding screen_print screen_write move_cursor
screen_print-Lost n c s buffer left low (end, back, tab, ret) =
    let d = line_ends-Lowered n (c ∷ []) s left in
    let t = d.after in
    let at0 = d.column ∙ left in
    let plain : IsPlain c t = (end, rw at0 (ground arith), tab, ret) in
    let mem = scroll (stored c t.screen_scheme t.screen_col t.screen_row t) in
    let up = record (set_memory mem t) { screen_row = t.screen_row - 1 } in
    let next = record up { screen_col = t.screen_col + 1 } in
    let written =
      write_scrolls c t.screen_scheme t.screen_col t.screen_row t (omega (arith, d.row))
        (omega (arith, d.row)) in
    let step = put-plain c t up plain written ∙ ap some (advance-next up (omega (arith, at0))) in
    let address = video_address + 160 * (s.screen_row + n) in
    let place : t.framebuffer + 2 * (t.screen_row * 80 + t.screen_col) ≡ address =
      omega (arith, d.row, d.buffer, buffer, at0) in
    record {
      after = move_cursor (u16 (next.screen_row * screen_width + next.screen_col)) next;
      returns = d.prints ∙ rw (step, screen_print, screen_write) refl;
      written =
          scroll_lem (stored c t.screen_scheme t.screen_col t.screen_row t) address
          ∙ ground (arith, place);
      row = omega (arith, d.row);
      column = omega (arith, at0);
    }
