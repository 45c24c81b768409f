-- ===== src/Drivers/Screen/Cursor.antt =====
-- Where a character leaves the cursor, and that a call returns.
use utero_archive.Base.{
  ℕ, zero, suc, ◌+◌, ◌-◌, ◌*◌, ◌/◌, ◌%◌, ◌^◌, ◌≤◌, ◌<◌, ◌≡◌, refl, ◌∙◌, ap, ◌&&◌, arith, ltb, inl,
  inr, Bool-cases, Option, some, List, ◌∷◌, ◌==◌, true, false, u16, ◌⊎◌, bit_and,
}
use utero_archive.Base.Bits.{and_low}
use utero_archive.Base.Memory.{Memory, poke}
use utero_archive.Core.Ports.{PortEvent, wrote}
use utero_archive.Drivers.Screen.{
  Screen, screen_width, scroll, set_memory, row_up, screen_write_at, move_cursor, advance, put,
  screen_write, fb_command_port, fb_data_port,
}

-- A tab stop in the last column that the screen has not.
abbrev pub TabsOff : ℕ → Screen → Type 0
TabsOff c s = (c ≡ b'\t') × (72 ≤ s.screen_col)

row_up-pos :
    (row : ℕ) (s : Screen) → 0 < row → row_up row s ≡ some (record s { screen_row = row - 1 })
unfolding row_up
row_up-pos zero s h = absurd (omega arith)
row_up-pos (suc row) s h = ap (λ r. some (record s { screen_row = r })) (omega arith)

-- The frame buffer with one cell written.
abbrev pub stored : ℕ → ℕ → ℕ → ℕ → Screen → Memory
stored c scheme x y s =
    let offset = 2 * (y * screen_width + x) in
    poke (poke s.hardware.memory (s.framebuffer + offset) c) (s.framebuffer + offset + 1) scheme

pub write_quiet :
    (c scheme x y : ℕ) (s : Screen)
    → y * screen_width + x ≤ 1920
    → screen_write_at c scheme x y s ≡ some (set_memory (stored c scheme x y s) s)
unfolding screen_write_at
write_quiet c scheme x y s h =
    let test : ltb 3840 (2 * (y * screen_width + x)) ≡ false = ground arith in rw test refl

pub write_scrolls :
    (c scheme x y : ℕ) (s : Screen)
    → 1920 < y * screen_width + x
    → 0 < s.screen_row
    → screen_write_at c scheme x y s
      ≡ some
          (record (set_memory (scroll (stored c scheme x y s)) s) { screen_row = s.screen_row - 1 })
unfolding screen_write_at
write_scrolls c scheme x y s h p =
    let test : ltb 3840 (2 * (y * screen_width + x)) ≡ true = ground arith in
    rw test (row_up-pos s.screen_row (set_memory (scroll (stored c scheme x y s)) s) p)

-- The state after a cell is written: the rows and columns of it.
record Written (s : Screen) (x : ℕ) (result : Option Screen) : Type 0 where
  s' : Screen
  returns : result ≡ some s'
  col : s'.screen_col ≡ s.screen_col
  row :
      (s'.screen_row ≡ s.screen_row)
      ⊎ ((s'.screen_row + 1 ≡ s.screen_row) × (1920 < s.screen_row * screen_width + x))

write-Written :
    (c scheme x : ℕ) (s : Screen)
    → x < screen_width
    → Written s x (screen_write_at c scheme x s.screen_row s)
write-Written c scheme x s h = elim (Bool-cases (ltb 1920 (s.screen_row * screen_width + x))) [
  | inl below ↦
      let far : 1920 < s.screen_row * screen_width + x = ground arith in
      record {
        s' = record (set_memory (scroll (stored c scheme x s.screen_row s)) s) {
          screen_row = s.screen_row - 1;
        };
        returns = write_scrolls c scheme x s.screen_row s far (omega arith);
        col = refl;
        row = inr (omega arith, far);
      }
  | inr above ↦ record {
    s' = set_memory (stored c scheme x s.screen_row s) s;
    returns = write_quiet c scheme x s.screen_row s (ground arith);
    col = refl;
    row = inl refl;
  }
]

-- What `screen_write` leaves: the cursor on the screen's columns, at most one row further down, and
-- the position told to the display.
pub record Moved (s : Screen) (result : Option Screen) : Type 0 where
  pub after : Screen
  pub returns : result ≡ some after
  pub on_screen : after.screen_col < screen_width
  pub down : after.screen_row ≤ s.screen_row + 1
  pub rest : List PortEvent
  pub high : ℕ
  pub low : ℕ
  pub told :
      after.hardware.log
      ≡ wrote fb_data_port low
        ∷ wrote fb_command_port 15
        ∷ wrote fb_data_port high
        ∷ wrote fb_command_port 14
        ∷ rest
  pub position : high * 256 + low ≡ u16 (after.screen_row * screen_width + after.screen_col)

-- A character that `screen_write` stores in the frame buffer.
abbrev pub IsPlain : ℕ → Screen → Type 0
IsPlain c s =
    ((c == b'\n') ≡ false)
    × ((c == 8 && ltb 0 s.screen_col) ≡ false)
    × ((c == b'\t') ≡ false)
    × ((c == b'\r') ≡ false)

pub put-plain :
    (c : ℕ) (s s' : Screen)
    → IsPlain c s
    → screen_write_at c s.screen_scheme s.screen_col s.screen_row s ≡ some s'
    → put c s ≡ some (advance s')
unfolding put
put-plain c s s' (n, b, t, r) e = rw (n, b, t, r, e) refl

-- A state behind `put`: the cursor on the screen's columns, and at most one row further down.
record Placed (s : Screen) (result : Option Screen) : Type 0 where
  s' : Screen
  returns : result ≡ some s'
  on_screen : s'.screen_col < screen_width
  down : s'.screen_row ≤ s.screen_row + 1

advance-Placed :
    (c : ℕ) (s : Screen) → s.screen_col < screen_width → IsPlain c s → Placed s (put c s)
advance-Placed c s h plain =
    let w = write-Written c s.screen_scheme s.screen_col s h in
    record {
      s' = advance w.s';
      returns = put-plain c s w.s' plain w.returns;
      on_screen = unfold advance in ground (arith, w.col);
      down = unfold advance in ground (arith, w.row);
    }

back-Placed :
    (s : Screen)
    → s.screen_col < screen_width
    → Placed s (
        screen_write_at 0 s.screen_scheme
          (s.screen_col - 1)
          s.screen_row
          (record s { screen_col = s.screen_col - 1 }))
back-Placed s h =
    let s1 : Screen = record s { screen_col = s.screen_col - 1 } in
    let w = write-Written 0 s.screen_scheme (s.screen_col - 1) s1 (omega arith) in
    record {
      s' = w.s';
      returns = w.returns;
      on_screen = omega (arith, w.col);
      down = omega (arith, w.row);
    }

put-Placed : (c : ℕ) (s : Screen) → s.screen_col < screen_width → ¬ TabsOff c s → Placed s (put c s)
unfolding put
put-Placed c s h t = elim (Bool-cases (c == b'\n')) [
  | inl newline ↦ rw newline (record {
    s' = record s { screen_col = 0; screen_row = s.screen_row + 1 };
    returns = refl;
    on_screen = omega arith;
    down = omega arith;
  })
  | inr n ↦ elim (Bool-cases (c == 8 && ltb 0 s.screen_col)) [
    | inl back ↦ rw (n, back) (back-Placed s h)
    | inr b ↦ elim (Bool-cases (c == b'\t')) [
      | inl tab ↦
          rw (n, b, tab)
            (record {
              s' = record s { screen_col = s.screen_col + 8 - s.screen_col % 8 };
              returns = refl;
              on_screen = tab_stop (ground arith);
              down = omega arith;
            })
      | inr t' ↦ elim (Bool-cases (c == b'\r')) [
        | inl cr ↦
            rw (n, b, t', cr)
              (record {
                s' = record s { screen_col = 0 };
                returns = refl;
                on_screen = omega arith;
                down = omega arith;
              })
        | inr r ↦ advance-Placed c s h (n, b, t', r)
      ]
    ]
  ]
]
  where
    tab_stop : c ≡ b'\t' → s.screen_col + 8 - s.screen_col % 8 < screen_width
    tab_stop e = elim (Bool-cases (ltb s.screen_col 72)) [
      | inl low ↦ ground arith
      | inr high ↦ absurd (t (e, ground arith))
    ]

byte_mask : (a : ℕ) → bit_and a 0x00FF ≡ a % 256
byte_mask a = and_low 8 a

-- On a column of the screen every character but a tab in the last tab stop is written: the call
-- returns, the cursor stays on the screen's columns and goes down one row at most, and its
-- position, as 16 bits, is what the display is told, the high byte and then the low one.
pub screen_write-Moved :
    (c : ℕ) (s : Screen) → s.screen_col < screen_width → ¬ TabsOff c s → Moved s (screen_write c s)
unfolding screen_write move_cursor
screen_write-Moved c s h t =
    let p = put-Placed c s h t in
    let pos : ℕ = p.s'.screen_row * screen_width + p.s'.screen_col in
    record {
      after = move_cursor (u16 pos) p.s';
      returns = rw (p.returns, screen_write) refl;
      on_screen = p.on_screen;
      down = p.down;
      rest = p.s'.hardware.log;
      high = bit_and (u16 pos / 2 ^ 8) 0x00FF % 2 ^ 8;
      low = bit_and (u16 pos) 0x00FF % 2 ^ 8;
      told = refl;
      position = omega (arith, byte_mask (u16 pos / 2 ^ 8), byte_mask (u16 pos));
    }

put-beyond :
    (c : ℕ) (s : Screen)
    → s.screen_row < 22
    → screen_width ≤ s.screen_col
    → s.screen_col < 2 * screen_width
    → IsPlain c s
    → (s' : Screen) × (put c s ≡ some s')
      × (s'.screen_col ≡ s.screen_col + 1)
      × (s'.screen_row ≡ s.screen_row)
unfolding advance
put-beyond c s r h far plain =
    let mem = stored c s.screen_scheme s.screen_col s.screen_row s in
    let quiet = write_quiet c s.screen_scheme s.screen_col s.screen_row s (omega arith) in
    let past : (s.screen_col + 1 == screen_width) ≡ false = ground arith in
    (
      record (set_memory mem s) { screen_col = s.screen_col + 1 },
      put-plain c s (set_memory mem s) plain quiet ∙ rw past refl,
      refl,
      refl,
    )

-- A tab in the last tab stop leaves the screen's columns, and from there on a plain character does
-- not end the row: the column grows past the width, and the row stays.
pub screen_write_beyond :
    (c : ℕ) (s : Screen)
    → s.screen_row < 22
    → 72 ≤ s.screen_col
    → s.screen_col < 2 * screen_width - 8
    → (c ≡ b'\t') ⊎ (IsPlain c s × (screen_width ≤ s.screen_col))
    → (s' : Screen) × (screen_write c s ≡ some s')
      × (screen_width ≤ s'.screen_col)
      × (s'.screen_row ≡ s.screen_row)
unfolding screen_write move_cursor put
screen_write_beyond c s r h far (inl tab) =
    let col = s.screen_col + 8 - s.screen_col % 8 in
    (
      move_cursor (u16 (s.screen_row * screen_width + col)) (record s { screen_col = col }),
      rw tab refl,
      omega arith,
      refl,
    )
screen_write_beyond c s r h far (inr (plain, wide)) =
    let (s', e, col, row) = put-beyond c s r wide (omega arith) plain in
    (
      move_cursor (u16 (s'.screen_row * screen_width + s'.screen_col)) s',
      rw (e, screen_write) refl,
      omega (arith, col),
      row,
    )
