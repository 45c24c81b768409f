-- ===== src/Drivers/Screen/Clear.antt =====
-- Clearing the screen.
use utero_archive.Base.{
  ℕ, zero, suc, ◌+◌, ◌-◌, ◌*◌, ◌≤◌, ◌<◌, ◌≡◌, refl, arith, ltb, Option, some, ◌⊎◌, inl, inr, ◌∙◌,
  Bool-cases,
}
use utero_archive.Base.Memory.{Memory}
use utero_archive.Drivers.Screen.{
  Screen, screen_width, screen_height, set_memory, screen_write_at, clear_row, clear_rows,
  screen_clear,
}
use utero_archive.Drivers.Screen.Cursor.{stored, write_quiet}

-- The `n` cells from cell `a` on are blank, in the current colours, and nothing else changed.
pub record Blank (a n : ℕ) (s : Screen) (result : Option Screen) : Type 0 where
  pub mem : Memory
  pub returns : result ≡ some (set_memory mem s)
  pub blank :
      (k : ℕ)
      → k < n
      → (mem (s.framebuffer + 2 * (a + k)) ≡ b' ')
        × (mem (s.framebuffer + 2 * (a + k) + 1) ≡ s.screen_scheme)
  pub others :
      (x : ℕ)
      → (x < s.framebuffer + 2 * a) ⊎ (s.framebuffer + 2 * (a + n) ≤ x)
      → mem x ≡ s.hardware.memory x

-- Cells behind cells.
Blank-append :
    (a n b m total : ℕ) (s : Screen) {r r' : Option Screen} (p : Blank a n s r)
    → b ≡ a + n
    → total ≡ n + m
    → Blank b m (set_memory p.mem s) r'
    → Blank a total s r'
Blank-append a n b m total s p start sum q = record {
  mem = q.mem;
  returns = q.returns;
  blank = λ k lt. elim (Bool-cases (ltb k n)) [
    | inl before ↦
        let below : k < n = ground arith in
        let own = p.blank k below in
        (
          q.others (s.framebuffer + 2 * (a + k)) (inl (omega arith)) ∙ own.0,
          q.others (s.framebuffer + 2 * (a + k) + 1) (inl (omega arith)) ∙ own.1,
        )
    | inr behind ↦
        let above : n ≤ k = ground arith in
        let same : a + k ≡ b + (k - n) = omega arith in rw same (q.blank (k - n) (omega arith))
  ];
  others = λ x o. q.others x (omega arith) ∙ p.others x (omega arith);
}

Blank-none : (a : ℕ) (s : Screen) → Blank a 0 s (some s)
Blank-none a s = record {
  mem = s.hardware.memory;
  returns = refl;
  blank = λ k lt. absurd (omega arith);
  others = λ x o. refl;
}

write_space-Blank :
    (x y cell : ℕ) (s : Screen)
    → cell ≡ y * screen_width + x
    → cell ≤ 1920
    → Blank cell 1 s (screen_write_at b' ' s.screen_scheme x y s)
write_space-Blank x y cell s at h = record {
  mem = stored b' ' s.screen_scheme x y s;
  returns = write_quiet b' ' s.screen_scheme x y s (omega arith);
  blank = λ k lt. ground arith;
  others = λ x' o. ground arith;
}

clear_row-Blank :
    (left x y cell : ℕ) (s : Screen)
    → cell ≡ y * screen_width + x
    → x + left ≤ screen_width
    → y < screen_height
    → Blank cell left s (clear_row left x y s)
unfolding clear_row
clear_row-Blank zero x y cell s at w h = Blank-none cell s
clear_row-Blank (suc left) x y cell s at w h =
    let first = write_space-Blank x y cell s at (omega arith) in
    let rest =
      clear_row-Blank left (x + 1) y (cell + 1) (set_memory first.mem s) (omega arith) (omega arith)
        h in
    rw (first.returns, clear_row)
      (Blank-append cell 1 (cell + 1) left (suc left) s first refl (omega arith) rest)

clear_rows-Blank :
    (left y cell : ℕ) (s : Screen)
    → cell ≡ y * screen_width
    → y + left ≤ screen_height
    → Blank cell (left * screen_width) s (clear_rows left y s)
unfolding clear_rows
clear_rows-Blank zero y cell s at h = Blank-none cell s
clear_rows-Blank (suc left) y cell s at h =
    let row = clear_row-Blank screen_width 0 y cell s (omega arith) (omega arith) (omega arith) in
    let rest =
      clear_rows-Blank left (y + 1) (cell + screen_width) (set_memory row.mem s) (omega arith)
        (omega arith) in
    rw (row.returns, clear_rows)
      (Blank-append cell screen_width (cell + screen_width) (left * screen_width)
        (suc left * screen_width) s row refl (omega arith) rest)

-- Clearing the screen returns: the cells of the rows that the driver counts, 24 of the display's
-- 25, hold spaces in the current colours, and nothing else has changed.
pub screen_clear-Blank : (s : Screen) → Blank 0 1920 s (screen_clear s)
unfolding screen_clear
screen_clear-Blank s = clear_rows-Blank screen_height 0 0 s refl (omega arith)
