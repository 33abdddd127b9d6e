-- ===== src/Screen/Tests.antt =====
-- The theorems on the screen of student-distrib/lib.c at concrete screens.
use linux_based_os.Prelude.{
  ℕ, ◌+◌, ◌<◌, ◌≤◌, ◌≡◌, ◌≢◌, ◌⊎◌, refl, arith, Bytes, byte_at, [], get_elem?,
}
use linux_based_os.Cstring.{codes, or_zero}
use linux_based_os.Cstring.Scan.{HasLength}
use linux_based_os.Screen.{
  Screen, video_mem, attrib, set_cursor_pos, step_right, write_cell, vertical_scroll, putc_terminal,
  deletec_terminal,
}
use linux_based_os.Screen.Cursor.{OnScreen}
use linux_based_os.Screen.Scroll.{char_at, attr_at, vertical_scroll_lem}
use linux_based_os.Screen.Put.{IsShown, Typed, here, putc_terminal-Typed}
use linux_based_os.Screen.Delete.{deletec_terminal-putc_terminal}
use linux_based_os.Screen.Print.{puts, printf, Arguments}
use linux_based_os.Screen.Print.Strings.{printf-puts}

-- A screen with the cursor at a cell.
abbrev screen_at : ℕ → ℕ → Screen
screen_at x y = record { screen_x = x; screen_y = y; mem = λ a. 0x41; outs = [] }

abbrev middle : Screen
middle = screen_at 79 7

middle-OnScreen : OnScreen middle
middle-OnScreen = record { column = omega arith; row = omega arith }

b-IsShown : IsShown b'b'
b-IsShown = record { no_tab = omega arith; no_newline = omega arith; no_return = omega arith }

putc_runs : (putc_terminal middle b'b').screen_y ≡ 8
unfolding putc_terminal set_cursor_pos step_right write_cell
putc_runs = refl

putc_terminal-Typed_example : Typed middle b'b' (putc_terminal middle b'b')
putc_terminal-Typed_example = putc_terminal-Typed middle b'b' middle-OnScreen

deletec_terminal-putc_terminal_example :
    let t = deletec_terminal (putc_terminal middle b'b') b'b' in
    (t.screen_x ≡ 79)
    × (t.screen_y ≡ 7)
    × (t.mem (here middle) ≡ b' ')
    × (t.mem (here middle + 1) ≡ attrib)
    × ((a : ℕ) → a ≢ here middle → a ≢ here middle + 1 → t.mem a ≡ middle.mem a)
deletec_terminal-putc_terminal_example =
    deletec_terminal-putc_terminal middle b'b' middle-OnScreen b-IsShown (omega arith)

vertical_scroll_lem_example :
    let t = vertical_scroll middle in
    ((x y : ℕ) → x < 80 → y < 24 → char_at t x y ≡ char_at middle x (y + 1))
    × ((x : ℕ) → x < 80 → char_at t x 24 ≡ b' ')
    × ((x y : ℕ) → attr_at t x y ≡ attr_at middle x y)
    × ((a : ℕ) → (a < video_mem) ⊎ (video_mem + 4000 ≤ a) → t.mem a ≡ middle.mem a)
    × (t.screen_x ≡ 0)
    × (t.screen_y ≡ 24)
vertical_scroll_lem_example = vertical_scroll_lem middle

abbrev hello : Bytes
hello i = or_zero (get_elem? (codes "hello") i)

hello_len : HasLength hello 5
hello_len = record { ends = refl; before = λ j p. ground arith }

abbrev no_arguments : Arguments
no_arguments = record { words = λ j. 0; strings = λ p j. 0 }

hello_plain : (j : ℕ) → j < 5 → byte_at hello j ≢ b'%'
hello_plain j p = ground arith

printf-puts_example : printf middle hello no_arguments (λ j. 0) ≡ puts middle hello
printf-puts_example =
    printf-puts middle hello 5 no_arguments (λ j. 0) hello_len (omega arith) hello_plain
