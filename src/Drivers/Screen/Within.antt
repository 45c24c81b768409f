-- ===== src/Drivers/Screen/Within.antt =====
-- Printing that stays within the display: how far the cursor gets, and that no other memory changes.
use utero_archive.Base.{
  ℕ, ◌+◌, ◌-◌, ◌*◌, ◌≤◌, ◌<◌, ◌≡◌, ◌⊎◌, inl, inr, refl, arith, Bool, ◌||◌, ◌&&◌, false, ◌==◌, ltb,
  if◌then◌else◌, Option, some, List, [], ◌∷◌, Bool-cases, u16,
}
use utero_archive.Base.Memory.{Memory}
use utero_archive.Drivers.Screen.{
  Screen, video_address, screen_width, set_memory, screen_write_at, move_cursor, advance, put,
  screen_write, screen_print, screen_init, screen_clear,
}
use utero_archive.Drivers.Screen.Cursor.{IsPlain, stored, write_quiet, put-plain}
use utero_archive.Drivers.Screen.Clear.{screen_clear-Blank}
use utero_archive.Drivers.Screen.Text.{place}

-- An address outside of the cells that the driver writes before it scrolls.
abbrev pub OffDisplay : ℕ → Type 0
OffDisplay x = (x < video_address) ⊎ (video_address + 3842 ≤ x)

abbrev pub SameOff : Memory → Memory → Type 0
SameOff mem mem' = (x : ℕ) → OffDisplay x → mem' x ≡ mem x

-- A screen with the cursor on a column and at most at cell `i`, over a memory that differs from
-- `mem` on the display alone, and devices that have yet to answer with `input`.
pub record Within (i : ℕ) (mem : Memory) (input : List ℕ) (s : Screen) : Type 0 where
  pub buffer : s.framebuffer ≡ video_address
  pub column : s.screen_col < screen_width
  pub placed : place s ≤ i
  pub memory : SameOff mem s.hardware.memory
  pub unread : s.hardware.input ≡ input

-- The most cells that a character takes, a line's end a whole row.
abbrev pub cells_of : ℕ → ℕ
cells_of c = if c == b'\n' then 80 else 1

abbrev pub cells : List ℕ → ℕ
cells [] = 0
cells (c ∷ str) = cells_of c + cells str

abbrev pub has_tab : List ℕ → Bool
has_tab [] = false
has_tab (c ∷ str) = c == b'\t' || has_tab str

-- A computation that returns such a screen.
pub record Stays (i : ℕ) (mem : Memory) (input : List ℕ) (result : Option Screen) : Type 0 where
  pub after : Screen
  pub returns : result ≡ some after
  pub within : Within i mem input after

Stays-most :
    {n m : ℕ} {mem : Memory} {input : List ℕ} {result : Option Screen}
    → n ≤ m
    → Stays n mem input result
    → Stays m mem input result
Stays-most le p = record {
  after = p.after;
  returns = p.returns;
  within = record {
    buffer = p.within.buffer;
    column = p.within.column;
    placed = omega (arith, p.within.placed);
    memory = p.within.memory;
    unread = p.within.unread;
  };
}

advance-hardware : (s : Screen) → (advance s).hardware ≡ s.hardware
unfolding advance
advance-hardware s = elim (Bool-cases (s.screen_col + 1 == screen_width)) [
  | inl full ↦ rw full refl
  | inr room ↦ rw room refl
]

module _ {i : ℕ} {mem : Memory} {input : List ℕ} where
  stored-SameOff :
      (c scheme x y : ℕ) (s : Screen)
      → Within i mem input s
      → y * screen_width + x ≤ 1920
      → SameOff mem (stored c scheme x y s)
  stored-SameOff c scheme x y s w low a off = ground (arith, w.memory a off, w.buffer)

  plain-Stays :
      (c : ℕ) (s : Screen)
      → Within i mem input s
      → i < 1920
      → IsPlain c s
      → Stays (i + 1) mem input (put c s)
  unfolding advance
  plain-Stays c s w low plain =
      let mem' = stored c s.screen_scheme s.screen_col s.screen_row s in
      let quiet =
        write_quiet c s.screen_scheme s.screen_col s.screen_row s (omega (arith, w.placed)) in
      let same =
        stored-SameOff c s.screen_scheme s.screen_col s.screen_row s w (omega (arith, w.placed)) in
      record {
        after = advance (set_memory mem' s);
        returns = put-plain c s (set_memory mem' s) plain quiet;
        within = record {
          buffer = ground (arith, w.buffer);
          column = ground (arith, w.column);
          placed = ground (arith, w.placed, w.column);
          memory = rw (advance-hardware (set_memory mem' s)) same;
          unread = rw (advance-hardware (set_memory mem' s)) w.unread;
        };
      }

  back-Stays :
      (s : Screen)
      → Within i mem input s
      → i ≤ 1920
      → 0 < s.screen_col
      → Stays i mem input (
          screen_write_at 0 s.screen_scheme
            (s.screen_col - 1)
            s.screen_row
            (record s { screen_col = s.screen_col - 1 }))
  back-Stays s w low pos =
      let s1 : Screen = record s { screen_col = s.screen_col - 1 } in
      let w1 : Within i mem input s1 = record {
        buffer = w.buffer;
        column = omega (arith, w.column);
        placed = omega (arith, w.placed);
        memory = w.memory;
        unread = w.unread;
      } in
      record {
        after = set_memory (stored 0 s.screen_scheme (s.screen_col - 1) s.screen_row s1) s1;
        returns =
            write_quiet 0 s.screen_scheme (s.screen_col - 1) s.screen_row s1
              (omega (arith, w.placed));
        within = record {
          buffer = w.buffer;
          column = w1.column;
          placed = w1.placed;
          memory =
              stored-SameOff 0 s.screen_scheme (s.screen_col - 1) s.screen_row s1 w1
                (omega (arith, w.placed));
          unread = w.unread;
        };
      }

  put-Stays :
      (c : ℕ) (s : Screen)
      → Within i mem input s
      → i + cells_of c ≤ 1920
      → (c == b'\t') ≡ false
      → Stays (i + cells_of c) mem input (put c s)
  unfolding put
  put-Stays c s w low t = elim (Bool-cases (c == b'\n')) [
    | inl newline ↦ rw newline (record {
      after = record s { screen_col = 0; screen_row = s.screen_row + 1 };
      returns = refl;
      within = record {
        buffer = w.buffer;
        column = omega arith;
        placed = omega (arith, w.placed);
        memory = w.memory;
        unread = w.unread;
      };
    })
    | inr n ↦ elim (Bool-cases (c == 8 && ltb 0 s.screen_col)) [
      | inl back ↦
          rw (n, back) (Stays-most (omega arith) (back-Stays s w (ground arith) (ground arith)))
      | inr b ↦ elim (Bool-cases (c == b'\r')) [
        | inl cr ↦
            rw (n, b, t, cr)
              (record {
                after = record s { screen_col = 0 };
                returns = refl;
                within = record {
                  buffer = w.buffer;
                  column = omega arith;
                  placed = omega (arith, w.placed);
                  memory = w.memory;
                  unread = w.unread;
                };
              })
        | inr r ↦ Stays-most (ground arith) (plain-Stays c s w (ground arith) (n, b, t, r))
      ]
    ]
  ]

  screen_write-Stays :
      (c : ℕ) (s : Screen)
      → Within i mem input s
      → i + cells_of c ≤ 1920
      → (c == b'\t') ≡ false
      → Stays (i + cells_of c) mem input (screen_write c s)
  unfolding screen_write move_cursor
  screen_write-Stays c s w low t =
      let p = put-Stays c s w low t in
      record {
        after = move_cursor (u16 (p.after.screen_row * screen_width + p.after.screen_col)) p.after;
        returns = rw (p.returns, screen_write) refl;
        within = record {
          buffer = p.within.buffer;
          column = p.within.column;
          placed = p.within.placed;
          memory = p.within.memory;
          unread = p.within.unread;
        };
      }

-- On a column of the screen, a text without tabs that ends in cell 1920 at the latest, a line's end
-- counted as a whole row, is printed: the call returns, the cursor gets no further than that, and
-- the only memory that changes is the display's.
pub screen_print-Stays :
    (str : List ℕ) {i : ℕ} {mem : Memory} {input : List ℕ} (s : Screen)
    → Within i mem input s
    → i + cells str ≤ 1920
    → has_tab str ≡ false
    → Stays (i + cells str) mem input (screen_print str s)
unfolding screen_print
screen_print-Stays [] s w low t = record {
  after = s;
  returns = refl;
  within = record {
    buffer = w.buffer;
    column = w.column;
    placed = omega (arith, w.placed);
    memory = w.memory;
    unread = w.unread;
  };
}
screen_print-Stays (c ∷ str) s w low t =
    let one = screen_write-Stays c s w (omega arith) (ground arith) in
    let rest = screen_print-Stays str one.after one.within (omega arith) (ground arith) in
    rw (one.returns, screen_print) (Stays-most (omega arith) rest)

-- The screen when the kernel starts: cleared, with the cursor in its first cell.
pub screen_clear-Stays :
    (s : Screen) → Stays 0 s.hardware.memory s.hardware.input (screen_clear (screen_init s))
unfolding screen_init
screen_clear-Stays s =
    let c = screen_clear-Blank (screen_init s) in
    record {
      after = set_memory c.mem (screen_init s);
      returns = c.returns;
      within = record {
        buffer = refl;
        column = omega arith;
        placed = omega arith;
        memory = λ x off. c.others x (omega arith);
        unread = refl;
      };
    }
