-- ===== src/Drivers/Screen/Scroll.antt =====
-- What scrolling does to the frame buffer.
use utero_archive.Base.{ℕ, zero, suc, ◌+◌, ◌-◌, ◌*◌, ◌≤◌, ◌≡◌, ◌&&◌, arith, ltb, leb, if◌then◌else◌}
use utero_archive.Base.Memory.{Memory, poke}
use utero_archive.Libk.Mem.{memcpyk, memcpyk_lem}
use utero_archive.Drivers.Screen.{video_address, screen_width, scroll_rows, clear_line, scroll}

abbrev row_address : ℕ → ℕ
row_address i = video_address + 2 * i * screen_width

clear_line_lem :
    (left i line : ℕ) (mem : Memory) (x : ℕ)
    → clear_line left i line mem x
      ≡ (if leb (line + i) x && ltb x (line + i + left) then 0 else mem x)
unfolding clear_line
clear_line_lem zero i line mem x = ground arith
clear_line_lem (suc left) i line mem x =
    ground (arith, clear_line_lem left (i + 1) line (poke mem (line + i) 0) x)

scroll_rows_lem :
    (left i : ℕ) (mem : Memory) (x : ℕ)
    → 1 ≤ i
    → scroll_rows left i mem x ≡ (
        if leb (row_address (i - 1)) x && ltb x (row_address (i - 1 + left))
        then mem (x + 160)
        else mem x)
unfolding scroll_rows
scroll_rows_lem zero i mem x h = ground arith
scroll_rows_lem (suc left) i mem x h =
    let mem' = memcpyk (row_address i) (row_address (i - 1)) 160 mem in
    ground (
      arith,
      scroll_rows_lem left (i + 1) mem' x,
      memcpyk_lem (row_address i) (row_address (i - 1)) 160 mem x,
      memcpyk_lem (row_address i) (row_address (i - 1)) 160 mem (x + 160),
    )

-- Scrolling moves each of the rows 1 to 23 up by one and clears the 25th line; row 23 keeps what
-- it showed, and no byte outside the 25 lines changes.
pub scroll_lem :
    (mem : Memory) (x : ℕ)
    → scroll mem x ≡ (
        if leb video_address x && ltb x (video_address + 3680)
        then mem (x + 160)
        else if leb (video_address + 3840) x && ltb x (video_address + 4000)
        then 0
        else mem x)
unfolding scroll
scroll_lem mem x = ground (
  arith,
  clear_line_lem 160 0 (video_address + 3840) (scroll_rows 23 1 mem) x,
  scroll_rows_lem 23 1 mem x,
)
