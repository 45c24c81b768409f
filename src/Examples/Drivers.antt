-- ===== src/Examples/Drivers.antt =====
-- The theorems on src/drivers at concrete inputs.
use utero_archive.Base.{
  ℕ, ◌+◌, ◌≤◌, ◌≡◌, ◌&&◌, inl, some, [], ◌∷◌, arith, refl, ltb, leb, if◌then◌else◌,
}
use utero_archive.Drivers.Screen.{Screen, video_address, screen_width, screen_write, screen_print}
use utero_archive.Drivers.Screen.Lines.{line_ends, Lost, screen_print-Lost}
use utero_archive.Drivers.Screen.Cursor.{Moved, screen_write-Moved, screen_write_beyond}
use utero_archive.Drivers.Screen.Within.{Stays, screen_print-Stays}
use utero_archive.Drivers.Screen.Text.{Printed, screen_print-Printed, screen_write-scrolls}

abbrev screen_at : ℕ → ℕ → Screen
screen_at row col = record {
  screen_scheme = 7;
  framebuffer = video_address;
  screen_col = col;
  screen_row = row;
  hardware = record { memory = λ x. 0; input = []; log = [] };
}

screen_write-Moved_example : Moved (screen_at 3 79) (screen_write b'x' (screen_at 3 79))
screen_write-Moved_example =
    screen_write-Moved b'x' (screen_at 3 79) (omega arith) (λ t. absurd (omega arith))

screen_write_beyond_example :
    (s' : Screen) × (screen_write b'\t' (screen_at 3 75) ≡ some s')
    × (screen_width ≤ s'.screen_col)
    × (s'.screen_row ≡ 3)
screen_write_beyond_example =
    screen_write_beyond b'\t' (screen_at 3 75) (omega arith) (omega arith) (omega arith) (inl refl)

screen_print-Printed_example :
    Printed (b'O' ∷ b'K' ∷ []) (screen_at 3 79) (screen_print (b'O' ∷ b'K' ∷ []) (screen_at 3 79))
screen_print-Printed_example =
    screen_print-Printed (b'O' ∷ b'K' ∷ []) (screen_at 3 79) (omega arith) (omega arith)
      (omega arith)

screen_write-scrolls_example :
    (s' : Screen) × (screen_write b'x' (screen_at 24 5) ≡ some s')
    × (s'.screen_row ≡ 23)
    × (s'.screen_col ≡ 6)
    × ((x : ℕ)
        → s'.hardware.memory x ≡ (
            if leb video_address x && ltb x (video_address + 3680)
            then 0
            else if leb (video_address + 3840) x && ltb x (video_address + 4000)
            then 0
            else 0))
screen_write-scrolls_example =
    screen_write-scrolls b'x' (screen_at 24 5) (omega arith) refl refl (omega arith) (omega arith)

screen_print-Stays_example :
    Stays 1681 (λ x. 0) [] (screen_print (b'O' ∷ b'\n' ∷ []) (screen_at 20 0))
screen_print-Stays_example =
    screen_print-Stays (b'O' ∷ b'\n' ∷ []) {i = 1600} {mem = λ x. 0} {input = []} (screen_at 20 0)
      (record {
        buffer = refl;
        column = omega arith;
        placed = omega arith;
        memory = λ x off. refl;
        unread = refl;
      })
      (omega arith) refl

screen_print-Lost_example :
    Lost 3 b'x' (screen_at 23 0) (screen_print (line_ends 3 (b'x' ∷ [])) (screen_at 23 0))
screen_print-Lost_example =
    screen_print-Lost 3 b'x' (screen_at 23 0) refl refl (omega arith) (refl, refl, refl, refl)
