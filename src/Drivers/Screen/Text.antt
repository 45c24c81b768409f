-- ===== src/Drivers/Screen/Text.antt =====
-- Text on the screen: printing above the last line, and what is lost when a line scrolls.
use utero_archive.Base.{
  ℕ, zero, suc, ◌+◌, ◌-◌, ◌*◌, ◌≤◌, ◌<◌, ◌≡◌, ◌≢◌, refl, ◌∙◌, ap, ◌&&◌, arith, ltb, leb,
  if◌then◌else◌, inl, inr, Bool-cases, true, Option, some, List, [], ◌∷◌, ◌==◌, false, u16, ◌⊎◌,
  length, get_elem?,
}
use utero_archive.Base.Memory.{Memory}
use utero_archive.Drivers.Screen.{
  Screen, video_address, screen_width, scroll, set_memory, move_cursor, advance, screen_write,
  screen_print,
}
use utero_archive.Drivers.Screen.Scroll.{scroll_lem}
use utero_archive.Drivers.Screen.Cursor.{IsPlain, stored, write_quiet, write_scrolls, put-plain}

-- The cell of the cursor, counted from the upper left one.
abbrev pub place : Screen → ℕ
place s = s.screen_row * screen_width + s.screen_col

-- No control character of the screen.
abbrev pub IsText : ℕ → Type 0
IsText c = (c ≢ b'\n') × (c ≢ 8) × (c ≢ b'\t') × (c ≢ b'\r')

abbrev pub AllText : List ℕ → Type 0
AllText [] = Unit {0}
AllText (c ∷ cs) = IsText c × AllText cs

IsText-IsPlain : (c : ℕ) (s : Screen) → IsText c → IsPlain c s
IsText-IsPlain c s t = (ground arith, ground arith, ground arith, ground arith)

-- The text stands in the cells from the cursor on, in the current colours, the cursor behind it,
-- and no other cell has changed.
pub record Printed (str : List ℕ) (s : Screen) (result : Option Screen) : Type 0 where
  pub after : Screen
  pub returns : result ≡ some after
  pub moved : place after ≡ place s + length str
  pub on_screen : after.screen_col < screen_width
  pub scheme : after.screen_scheme ≡ s.screen_scheme
  pub buffer : after.framebuffer ≡ s.framebuffer
  pub shown :
      (k c : ℕ)
      → get_elem? str k ≡ some c
      → (after.hardware.memory (s.framebuffer + 2 * (place s + k)) ≡ c)
        × (after.hardware.memory (s.framebuffer + 2 * (place s + k) + 1) ≡ s.screen_scheme)
  pub others :
      (x : ℕ)
      → (x < s.framebuffer + 2 * place s) ⊎ (s.framebuffer + 2 * (place s + length str) ≤ x)
      → after.hardware.memory x ≡ s.hardware.memory x

-- One character of a text.
write_text :
    (c : ℕ) (s : Screen)
    → IsText c
    → s.screen_col < screen_width
    → place s ≤ 1920
    → (s' : Screen) × (screen_write c s ≡ some s')
      × (place s' ≡ place s + 1)
      × (s'.screen_col < screen_width)
      × (s'.screen_scheme ≡ s.screen_scheme)
      × (s'.framebuffer ≡ s.framebuffer)
      × (s'.hardware.memory ≡ stored c s.screen_scheme s.screen_col s.screen_row s)
unfolding screen_write move_cursor advance
write_text c s t h low =
    let mem = stored c s.screen_scheme s.screen_col s.screen_row s in
    let quiet = write_quiet c s.screen_scheme s.screen_col s.screen_row s low in
    let written = put-plain c s (set_memory mem s) (IsText-IsPlain c s t) quiet in
    let s1 = advance (set_memory mem s) in
    (
      move_cursor (u16 (s1.screen_row * screen_width + s1.screen_col)) s1,
      rw (written, screen_write) refl,
      ground arith,
      ground arith,
      ground arith,
      ground arith,
      ground arith,
    )

Printed-cons :
    {c : ℕ} {cs : List ℕ} {s s1 : Screen} {result : Option Screen}
    → place s1 ≡ place s + 1
    → s1.screen_scheme ≡ s.screen_scheme
    → s1.framebuffer ≡ s.framebuffer
    → s1.hardware.memory ≡ stored c s.screen_scheme s.screen_col s.screen_row s
    → Printed cs s1 result
    → Printed (c ∷ cs) s result
Printed-cons {c} {cs} {s} {s1} p sch buf mem rest = record {
  after = rest.after;
  returns = rest.returns;
  moved = omega (arith, rest.moved);
  on_screen = rest.on_screen;
  scheme = rest.scheme ∙ sch;
  buffer = rest.buffer ∙ buf;
  shown = shown;
  others = others;
}
  where
    at : (x : ℕ) → s1.hardware.memory x ≡ stored c s.screen_scheme s.screen_col s.screen_row s x
    at x = ap (λ (m : Memory). m x) mem

    others :
        (x : ℕ)
        → (x < s.framebuffer + 2 * place s) ⊎ (s.framebuffer + 2 * (place s + length (c ∷ cs)) ≤ x)
        → rest.after.hardware.memory x ≡ s.hardware.memory x
    others x out = ground (arith, rest.others x, at x)

    first : ℕ
    first = s.framebuffer + 2 * (place s + 0)

    shown :
        (k d : ℕ)
        → get_elem? (c ∷ cs) k ≡ some d
        → (rest.after.hardware.memory (s.framebuffer + 2 * (place s + k)) ≡ d)
          × (rest.after.hardware.memory (s.framebuffer + 2 * (place s + k) + 1) ≡ s.screen_scheme)
    shown zero d e = (
      rest.others first (inl (omega arith)) ∙ at first ∙ ground arith,
      rest.others (first + 1) (inl (omega arith)) ∙ at (first + 1) ∙ ground arith,
    )
    shown (suc k) d e =
        let r = rest.shown k d e in
        let same : s.framebuffer + 2 * (place s + suc k) ≡ s1.framebuffer + 2 * (place s1 + k) =
          omega arith in
        (rw same r.0, rw same (r.1 ∙ sch))

-- A text without control characters that ends before the cell behind the first one of row 24 is
-- shown: `screen_print` returns with each character in its cell, over the ends of the rows, in the
-- current colours, the cursor behind the text, and every other byte of memory as it was.
pub screen_print-Printed :
    (str : List ℕ) (s : Screen)
    → AllText str
    → s.screen_col < screen_width
    → place s + length str ≤ 1921
    → Printed str s (screen_print str s)
unfolding screen_print
screen_print-Printed [] s t h fits = record {
  after = s;
  returns = refl;
  moved = omega arith;
  on_screen = h;
  scheme = refl;
  buffer = refl;
  shown = λ k c e. absurd (ground arith);
  others = λ x out. refl;
}
screen_print-Printed (c ∷ str) s t h fits =
    let (s1, e, p, col, sch, buf, mem) = write_text c s t.0 h (omega arith) in
    rw (e, screen_print)
      (Printed-cons p sch buf mem (screen_print-Printed str s1 t.1 col (omega arith)))

advance-memory : (s : Screen) → (advance s).hardware.memory ≡ s.hardware.memory
unfolding advance
advance-memory s = elim (Bool-cases (s.screen_col + 1 == screen_width)) [
  | inl full ↦ rw full refl
  | inr inside ↦ rw inside refl
]

-- A character that is no control character, written on row 24 behind its first column, is lost:
-- rows 1 to 23 move up, row 23 stays as it was, the 25th line is blank, and the cursor goes on in
-- row 23, or from the last column at the start of row 24 again.
pub screen_write-scrolls :
    (c : ℕ) (s : Screen)
    → IsText c
    → s.framebuffer ≡ video_address
    → s.screen_row ≡ 24
    → 1 ≤ s.screen_col
    → s.screen_col < screen_width
    → (s' : Screen) × (screen_write c s ≡ some s')
      × (s'.screen_row ≡ (if s.screen_col == 79 then 24 else 23))
      × (s'.screen_col ≡ (if s.screen_col == 79 then 0 else s.screen_col + 1))
      × ((x : ℕ)
          → s'.hardware.memory x ≡ (
              if leb video_address x && ltb x (video_address + 3680)
              then s.hardware.memory (x + 160)
              else if leb (video_address + 3840) x && ltb x (video_address + 4000)
              then 0
              else s.hardware.memory x))
unfolding screen_write move_cursor advance
screen_write-scrolls c s t fb row lo hi =
    let mem = stored c s.screen_scheme s.screen_col s.screen_row s in
    let s0 : Screen = record (set_memory (scroll mem) s) { screen_row = s.screen_row - 1 } in
    let scrolls =
      write_scrolls c s.screen_scheme s.screen_col s.screen_row s (omega arith) (omega arith) in
    let written = put-plain c s s0 (IsText-IsPlain c s t) scrolls in
    (
      move_cursor (u16 ((advance s0).screen_row * screen_width + (advance s0).screen_col))
          (advance s0),
      rw (written, screen_write) refl,
      (elim (Bool-cases (s.screen_col == 79)) [
        | inl last ↦
            let full : (s.screen_col + 1 == screen_width) ≡ true = ground arith in
            rw (last, full) (omega arith)
        | inr inner ↦
            let inside : (s.screen_col + 1 == screen_width) ≡ false = ground arith in
            rw (inner, inside) (omega arith)
      ]),
      (elim (Bool-cases (s.screen_col == 79)) [
        | inl last ↦
            let full : (s.screen_col + 1 == screen_width) ≡ true = ground arith in
            rw (last, full) refl
        | inr inner ↦
            let inside : (s.screen_col + 1 == screen_width) ≡ false = ground arith in
            rw (inner, inside) refl
      ]),
      λ x. rw (advance-memory s0) (ground (arith, scroll_lem mem x)),
    )
