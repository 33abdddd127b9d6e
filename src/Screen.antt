-- ===== src/Screen.antt =====
-- The text screen of student-distrib/lib.c. The coordinates are C `int`s, kept as words of 32 bits.
pub mod Cursor
pub mod Scroll
pub mod Put
pub mod Delete
pub mod Print
mod Tests
use linux_based_os.Prelude.{
  ℕ, zero, suc, ◌+◌, ◌-◌, ◌*◌, ◌/◌, ◌%◌, ◌^◌, Bool, ltb, leb, ◌==◌, ◌&&◌, ◌||◌, if◌then◌else◌,
  Bytes, byte_at, update, bit_and, bit_or, List, ◌∷◌, Option, none, some,
}

-- The globals, the memory, and what was sent to the ports, the last word first, as the pairs of
-- the arguments of outw.
pub record Screen : Type 0 where
  pub screen_x : ℕ
  pub screen_y : ℕ
  pub mem : Bytes
  pub outs : List (ℕ × ℕ)

abbrev pub video_mem : ℕ
video_mem = 0xB8000

abbrev pub num_cols : ℕ
num_cols = 80

abbrev pub num_rows : ℕ
num_rows = 25

abbrev pub attrib : ℕ
attrib = 0x8

abbrev pub tab_size : ℕ
tab_size = 3

-- w >= n on `int`s, for n not negative; then w > n is at_least w (n + 1).
abbrev pub at_least : ℕ → ℕ → Bool
at_least w n = leb n w && ltb w (2 ^ 31)

-- w / n and w % n on `int`s, for n positive: both go towards 0.
abbrev pub quot : ℕ → ℕ → ℕ
quot w n = if ltb w (2 ^ 31) then w / n else (2 ^ 32 - (2 ^ 32 - w) / n) % 2 ^ 32

abbrev pub rem : ℕ → ℕ → ℕ
rem w n = if ltb w (2 ^ 31) then w % n else (2 ^ 32 - (2 ^ 32 - w) % n) % 2 ^ 32

-- The address of the character of a cell; its attribute follows.
abbrev pub cell : ℕ → ℕ → ℕ
cell x y = (video_mem + (num_cols * y + x) * 2) % 2 ^ 32

unfoldable pub clear_loop : ℕ → ℕ → Bytes → Bytes
clear_loop zero i mem = mem
clear_loop (suc left) i mem =
    clear_loop left (i + 1)
      (update (update mem (video_mem + i * 2) b' ') (video_mem + i * 2 + 1) attrib)

unfoldable pub clear : Screen → Screen
clear s = record s { mem = clear_loop (num_rows * num_cols) 0 s.mem }

unfoldable pub set_cursor_pos : Screen → Screen
set_cursor_pos s =
    let position = (num_cols * s.screen_y + s.screen_x) % 2 ^ 16 in
    let first = bit_or 0x000E (bit_and position 0xFF00) in
    let second = bit_or 0x000F (bit_and (position * 2 ^ 8) 0xFF00) in
    record s { outs = (second, 0x03D4) ∷ (first, 0x03D4) ∷ s.outs }

unfoldable pub set_screen : Screen → ℕ → ℕ → Screen
set_screen s x y = set_cursor_pos (record s { screen_x = x; screen_y = y })

-- The inner loop of vertical_scroll, over the columns.
unfoldable pub move_row : ℕ → ℕ → ℕ → Bytes → Bytes
move_row zero x y mem = mem
move_row (suc left) x y mem =
    let old = num_cols * (y + 1) + x in
    let new1 = num_cols * y + x in
    move_row left (x + 1) y (update mem (video_mem + new1 * 2) (byte_at mem (video_mem + old * 2)))

unfoldable pub move_rows : ℕ → ℕ → Bytes → Bytes
move_rows zero y mem = mem
move_rows (suc left) y mem = move_rows left (y + 1) (move_row num_cols 0 y mem)

-- The loop that clears the bottom line.
unfoldable pub clear_bottom : ℕ → ℕ → Bytes → Bytes
clear_bottom zero x mem = mem
clear_bottom (suc left) x mem =
    let bottom = num_cols * (num_rows - 1) + x in
    clear_bottom left (x + 1) (update mem (video_mem + bottom * 2) b' ')

unfoldable pub vertical_scroll : Screen → Screen
vertical_scroll s =
    set_screen (record s { mem = clear_bottom num_cols 0 (move_rows (num_rows - 1) 0 s.mem) }) 0
      (num_rows - 1)

-- A character and its attribute at the coordinates.
unfoldable pub write_cell : Screen → ℕ → Screen
write_cell s c = record s {
  mem =
      update (update s.mem (cell s.screen_x s.screen_y) c)
        ((cell s.screen_x s.screen_y + 1) % 2 ^ 32) attrib;
}

-- The coordinates after a character, past the end of a row to the next one.
unfoldable pub step_right : Screen → Screen
step_right s =
    let x = (s.screen_x + 1) % 2 ^ 32 in
    record s {
      screen_x = rem x num_cols;
      screen_y = rem ((s.screen_y + quot x num_cols) % 2 ^ 32) num_rows;
    }

abbrev pub is_newline : ℕ → Bool
is_newline c = (c == b'\n') || (c == b'\r')

abbrev pub down_line : Screen → Screen
down_line s = record s { screen_x = 0; screen_y = (s.screen_y + 1) % 2 ^ 32 }

unfoldable pub putc : Screen → ℕ → Screen
putc s c = set_cursor_pos (if is_newline c then down_line s else step_right (write_cell s c))

unfoldable pub putc_terminal : Screen → ℕ → Screen
putc_terminal s c = set_cursor_pos (
    if c == b'\t'
    then record s { screen_x = (s.screen_x + tab_size) % 2 ^ 32 }
    else if is_newline c
    then (let next = down_line s in
        if at_least next.screen_y (num_rows - 1) then vertical_scroll next else next)
    else (let written = write_cell s c in
        if at_least s.screen_y (num_rows - 1) && at_least s.screen_x (num_cols - 1)
        then vertical_scroll written
        else step_right written))

-- One round of deletec_terminal; getvmem returns `video_mem`.
unfoldable pub delete_one : Screen → Screen
delete_one s =
    if at_least s.screen_x 1
    then set_screen
        (record s { mem = update s.mem (cell (s.screen_x + (2 ^ 32 - 1)) s.screen_y) b' ' })
        (s.screen_x - 1) s.screen_y
    else if s.screen_x == 0
    then set_screen
        (record s { mem = update s.mem (cell (num_cols - 1) (s.screen_y + (2 ^ 32 - 1))) b' ' })
        (num_cols - 1) ((s.screen_y + (2 ^ 32 - 1)) % 2 ^ 32)
    else s

unfoldable pub delete_rounds : ℕ → Screen → Screen
delete_rounds zero s = s
delete_rounds (suc left) s = delete_rounds left (delete_one s)

unfoldable pub deletec_terminal : Screen → ℕ → Screen
deletec_terminal s c = delete_rounds (if c == b'\t' then tab_size else 1) s
