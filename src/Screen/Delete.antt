-- ===== src/Screen/Delete.antt =====
-- deletec_terminal of student-distrib/lib.c.
use linux_based_os.Prelude.{
  ℕ, ◌+◌, ◌-◌, ◌*◌, ◌^◌, ◌<◌, ◌≡◌, ◌≢◌, refl, sym, ap, ◌∙◌, arith, ◌==◌, false,
}
use linux_based_os.Screen.{
  Screen, video_mem, attrib, set_screen, set_cursor_pos, delete_one, delete_rounds,
  deletec_terminal, putc_terminal,
}
use linux_based_os.Screen.Cursor.{OnScreen}
use linux_based_os.Screen.Put.{
  IsShown, IsPut, Typed, put, put_last, new_line, scroll_line, tab, putc_terminal-Typed, here,
}

-- The cell before the cursor is blank, and the cursor is in it.
pub record IsErased (s t : Screen) : Type 0 where
  pub back : 80 * t.screen_y + t.screen_x + 1 ≡ 80 * s.screen_y + s.screen_x
  pub blank : t.mem (here t) ≡ b' '
  pub elsewhere : (a : ℕ) → a ≢ here t → t.mem a ≡ s.mem a
  pub on_screen : OnScreen t

delete_one-IsErased :
    (s : Screen) → OnScreen s → 0 < 80 * s.screen_y + s.screen_x → IsErased s (delete_one s)
unfolding delete_one set_screen set_cursor_pos
delete_one-IsErased s v h = record {
  back = ground (arith, v.column, v.row);
  blank = ground (arith, v.column, v.row);
  elsewhere = λ a p. ground (arith, v.column, v.row);
  on_screen = record {
    column = ground (arith, v.column, v.row);
    row = ground (arith, v.column, v.row);
  };
}

-- deletec_terminal of a character that is no tab, from any cell but the first one, moves the
-- cursor to the cell before, also over the start of a row, and blanks that cell alone.
pub deletec_terminal-IsErased :
    (s : Screen) (c : ℕ)
    → OnScreen s
    → 0 < 80 * s.screen_y + s.screen_x
    → c ≢ b'\t'
    → IsErased s (deletec_terminal s c)
unfolding deletec_terminal delete_rounds
deletec_terminal-IsErased s c v h n =
    let no_tab : (c == b'\t') ≡ false = ground arith in rw no_tab (delete_one-IsErased s v h)

-- From the first cell of the screen deletec_terminal writes a blank in front of the screen's
-- memory, and leaves the row at -1.
pub delete_off_screen :
    (s : Screen) (c : ℕ)
    → s.screen_x ≡ 0
    → s.screen_y ≡ 0
    → c ≢ b'\t'
    → ((deletec_terminal s c).mem (video_mem - 2) ≡ b' ')
      × ((deletec_terminal s c).screen_y ≡ 2 ^ 32 - 1)
unfolding deletec_terminal delete_rounds delete_one set_screen set_cursor_pos
delete_off_screen s c x y n =
    let no_tab : (c == b'\t') ≡ false = ground arith in rw (no_tab, x, y) (refl, refl)

Typed-IsPut :
    (s : Screen) (c : ℕ) (t : Screen)
    → IsShown c
    → OnScreen s
    → 80 * s.screen_y + s.screen_x < 1999
    → Typed s c t
    → IsPut s c t
Typed-IsPut s c t sh v h (put q k r) = r
Typed-IsPut s c t sh v h (put_last q k r) = absurd (omega arith)
Typed-IsPut s c t sh v h (new_line e k m x y) = absurd (ground (arith, sh.no_newline, sh.no_return))
Typed-IsPut s c t sh v h (scroll_line e k r) = absurd (ground (arith, sh.no_newline, sh.no_return))
Typed-IsPut s c t sh v h (tab e m x y) = absurd (sh.no_tab e)

-- Deleting a character right after it was shown brings the cursor back and leaves its cell blank,
-- with the standard attribute. Every other address holds what it did before.
pub deletec_terminal-putc_terminal :
    (s : Screen) (c : ℕ)
    → OnScreen s
    → IsShown c
    → 80 * s.screen_y + s.screen_x < 1999
    → let t = deletec_terminal (putc_terminal s c) c in
      (t.screen_x ≡ s.screen_x)
      × (t.screen_y ≡ s.screen_y)
      × (t.mem (here s) ≡ b' ')
      × (t.mem (here s + 1) ≡ attrib)
      × ((a : ℕ) → a ≢ here s → a ≢ here s + 1 → t.mem a ≡ s.mem a)
deletec_terminal-putc_terminal s c v sh h =
    let p = Typed-IsPut s c (putc_terminal s c) sh v h (putc_terminal-Typed s c v) in
    let e =
      deletec_terminal-IsErased (putc_terminal s c) c p.on_screen (omega (arith, p.next))
        sh.no_tab in
    let same : here (deletec_terminal (putc_terminal s c) c) ≡ here s =
      omega (arith, p.next, e.back) in
    (
      omega (arith, p.next, e.back, e.on_screen.column, v.column),
      omega (arith, p.next, e.back, e.on_screen.column, v.column),
      ap (deletec_terminal (putc_terminal s c) c).mem (sym same) ∙ e.blank,
      e.elsewhere _ (omega (arith, same)) ∙ p.attr,
      λ a q r. e.elsewhere a (omega (arith, same)) ∙ p.elsewhere a q r,
    )
