-- ===== src/Drivers/Screen.antt =====
-- The text screen (src/drivers/screen.c, src/include/drivers/screen.h): the frame buffer at
-- 0xB8000, the cursor and scrolling. The row and the column are numbers: a decrement of row 0,
-- which would leave them, is `none`.
pub mod Scroll
pub mod Cursor
pub mod Clear
pub mod Within
pub mod Lines
pub mod Text
use utero_archive.Base.{
  ℕ, zero, suc, ◌+◌, ◌-◌, ◌*◌, ◌/◌, ◌%◌, ◌<◌, ◌^◌, Bool, ◌&&◌, Option, none, some, List, [], ◌∷◌,
  ltb, ◌==◌, if◌then◌else◌, u8, u16, bit_or, bit_and,
}
use utero_archive.Base.Memory.{Memory, poke}
use utero_archive.Libk.Mem.{memcpyk}
use utero_archive.Core.Ports.{Hardware, port_byte_out}

abbrev pub video_address : ℕ
video_address = 0xB8000

abbrev pub screen_width : ℕ
screen_width = 80

abbrev pub screen_height : ℕ
screen_height = 24

abbrev pub fb_command_port : ℕ
fb_command_port = 0x3D4

abbrev pub fb_data_port : ℕ
fb_data_port = 0x3D5

abbrev pub color_black : ℕ
color_black = 0

abbrev pub color_light_grey : ℕ
color_light_grey = 7

-- The file's variables, and the hardware.
pub record Screen : Type 0 where
  pub screen_scheme : ℕ
  pub framebuffer : ℕ
  pub screen_col : ℕ
  pub screen_row : ℕ
  pub hardware : Hardware

pub color_scheme : ℕ → ℕ → ℕ
color_scheme fg bg = u8 (bit_or fg (bg * 2 ^ 4))

unfoldable pub screen_init : Screen → Screen
screen_init s = record s {
  framebuffer = video_address;
  screen_scheme = color_scheme color_light_grey color_black;
  screen_col = 0;
  screen_row = 0;
}

-- The loop that copies each row onto the one above it.
pub scroll_rows : ℕ → ℕ → Memory → Memory
scroll_rows zero i mem = mem
scroll_rows (suc left) i mem = scroll_rows left (i + 1) (
    memcpyk (video_address + 2 * i * screen_width) (video_address + 2 * (i - 1) * screen_width)
      (2 * screen_width) mem)

-- The loop that clears the last line.
pub clear_line : ℕ → ℕ → ℕ → Memory → Memory
clear_line zero i last_line mem = mem
clear_line (suc left) i last_line mem =
    clear_line left (i + 1) last_line (poke mem (last_line + i) 0)

pub scroll : Memory → Memory
scroll mem =
    clear_line (screen_width * 2) 0 (2 * screen_height * screen_width + video_address)
      (scroll_rows (screen_height - 1) 1 mem)

abbrev pub set_memory : Memory → Screen → Screen
set_memory mem s = record s {
  hardware = record { memory = mem; input = s.hardware.input; log = s.hardware.log };
}

pub row_up : ℕ → Screen → Option Screen
row_up zero s = none
row_up (suc row) s = some (record s { screen_row = row })

pub screen_write_at : ℕ → ℕ → ℕ → ℕ → Screen → Option Screen
screen_write_at c scheme x y s =
    let offset = 2 * (y * screen_width + x) in
    let mem =
      poke (poke s.hardware.memory (s.framebuffer + offset) c) (s.framebuffer + offset + 1)
        scheme in
    if ltb (screen_height * screen_width * 2) offset
    then row_up s.screen_row (set_memory (scroll mem) s)
    else some (set_memory mem s)

pub move_cursor : ℕ → Screen → Screen
move_cursor pos s = record s {
  hardware = port_byte_out fb_data_port (bit_and pos 0x00FF) (
      port_byte_out fb_command_port 15 (
        port_byte_out fb_data_port (bit_and (pos / 2 ^ 8) 0x00FF)
          (port_byte_out fb_command_port 14 s.hardware)));
}

-- The step to the next column behind a character.
pub advance : Screen → Screen
advance s =
    if s.screen_col + 1 == screen_width
    then record s { screen_col = 0; screen_row = s.screen_row + 1 }
    else record s { screen_col = s.screen_col + 1 }

-- What `screen_write` does before it moves the cursor.
pub put : ℕ → Screen → Option Screen
put c s =
    if c == b'\n'
    then some (record s { screen_col = 0; screen_row = s.screen_row + 1 })
    else if c == 8 && ltb 0 s.screen_col
    then screen_write_at 0 s.screen_scheme (s.screen_col - 1) s.screen_row
        (record s { screen_col = s.screen_col - 1 })
    else if c == b'\t'
    then some (record s { screen_col = s.screen_col + 8 - s.screen_col % 8 })
    else if c == b'\r'
    then some (record s { screen_col = 0 })
    else elim (screen_write_at c s.screen_scheme s.screen_col s.screen_row s) [
      | none ↦ none
      | some s' ↦ some (advance s')
    ]

pub screen_write : ℕ → Screen → Option Screen
screen_write c s = elim (put c s) [
  | none ↦ none
  | some s' ↦ some (move_cursor (u16 (s'.screen_row * screen_width + s'.screen_col)) s')
]

unfoldable pub screen_print : List ℕ → Screen → Option Screen
screen_print [] s = some s
screen_print (c ∷ str) s = elim (screen_write c s) [ none ↦ none | some s' ↦ screen_print str s' ]

-- One row of `screen_clear`, from column `x` on.
pub clear_row : ℕ → ℕ → ℕ → Screen → Option Screen
clear_row zero x y s = some s
clear_row (suc left) x y s = elim (screen_write_at b' ' s.screen_scheme x y s) [
  | none ↦ none
  | some s' ↦ clear_row left (x + 1) y s'
]

pub clear_rows : ℕ → ℕ → Screen → Option Screen
clear_rows zero y s = some s
clear_rows (suc left) y s = elim (clear_row screen_width 0 y s) [
  | none ↦ none
  | some s' ↦ clear_rows left (y + 1) s'
]

pub screen_clear : Screen → Option Screen
screen_clear s = clear_rows screen_height 0 s
