-- ===== src/Screen/Put.antt =====
-- putc and putc_terminal of student-distrib/lib.c.
use linux_based_os.Prelude.{
  ℕ, ◌+◌, ◌*◌, ◌%◌, ◌^◌, ◌<◌, ◌≤◌, ◌≡◌, ◌≢◌, ◌⊎◌, refl, ap, ◌∙◌, arith, leb, ◌==◌, ◌&&◌, true,
  false, Bool-cases, inl, inr, byte_at,
}
use linux_based_os.Screen.{
  Screen, video_mem, attrib, is_newline, down_line, write_cell, step_right, putc, putc_terminal,
  set_cursor_pos, vertical_scroll, at_least,
}
use linux_based_os.Screen.Cursor.{OnScreen}
use linux_based_os.Screen.Scroll.{char_at, vertical_scroll_lem}

-- A character that putc_terminal shows.
pub record IsShown (c : ℕ) : Type 0 where
  pub no_tab : c ≢ b'\t'
  pub no_newline : c ≢ b'\n'
  pub no_return : c ≢ b'\r'

-- The address of the cell under the cursor.
abbrev pub here : Screen → ℕ
here s = video_mem + (80 * s.screen_y + s.screen_x) * 2

-- The state with a character in the cell under the cursor, and the cursor in the next cell.
pub record IsPut (s : Screen) (c : ℕ) (t : Screen) : Type 0 where
  pub char : t.mem (here s) ≡ c
  pub attr : t.mem (here s + 1) ≡ attrib
  pub elsewhere : (a : ℕ) → a ≢ here s → a ≢ here s + 1 → t.mem a ≡ s.mem a
  pub next : 80 * t.screen_y + t.screen_x ≡ (80 * s.screen_y + s.screen_x + 1) % 2000
  pub on_screen : OnScreen t

step-IsPut :
    (s : Screen) (c : ℕ) → OnScreen s → IsPut s c (set_cursor_pos (step_right (write_cell s c)))
unfolding set_cursor_pos step_right write_cell
step-IsPut s c v = record {
  char = ground (arith, v.column, v.row);
  attr = ground (arith, v.column, v.row);
  elsewhere = λ a p q. ground (arith, v.column, v.row);
  next = ground (arith, v.column, v.row);
  on_screen = record {
    column = ground (arith, v.column, v.row);
    row = ground (arith, v.column, v.row);
  };
}

-- putc shows a character that is no newline in the cell under the cursor, with the standard
-- attribute, changes no other address, and moves the cursor to the next cell, from the last one
-- of the screen to the first.
pub putc-IsPut : (s : Screen) (c : ℕ) → OnScreen s → c ≢ b'\n' → c ≢ b'\r' → IsPut s c (putc s c)
unfolding putc
putc-IsPut s c v n r =
    let plain : is_newline c ≡ false = ground arith in rw plain (step-IsPut s c v)

-- On the bottom row a newline takes putc off the screen: the next character that is no newline is
-- written behind the 4000 bytes of the screen.
pub putc_off_screen :
    (s : Screen) (c : ℕ)
    → s.screen_y ≡ 24
    → c ≢ b'\n'
    → c ≢ b'\r'
    → (putc (putc s b'\n') c).mem (video_mem + 4000) ≡ c
unfolding putc set_cursor_pos step_right write_cell
putc_off_screen s c bottom n r =
    let plain : is_newline c ≡ false = ground arith in
    let y : (s.screen_y + 1) % 2 ^ 32 ≡ 25 = omega arith in rw (plain, y) (ground arith)

-- The state after a character in the last cell, or a newline, that scrolls: what `s` showed, with
-- the rows moved up.
pub record IsScrolled (s t : Screen) : Type 0 where
  pub rows : (x y : ℕ) → x < 80 → y < 24 → char_at t x y ≡ char_at s x (y + 1)
  pub bottom : (x : ℕ) → x < 80 → char_at t x 24 ≡ b' '
  pub outside : (a : ℕ) → (a < video_mem) ⊎ (video_mem + 4000 ≤ a) → t.mem a ≡ s.mem a
  pub column : t.screen_x ≡ 0
  pub row : t.screen_y ≡ 24

scroll-IsScrolled :
    (s s' : Screen) → s'.mem ≡ s.mem → IsScrolled s (set_cursor_pos (vertical_scroll s'))
unfolding set_cursor_pos
scroll-IsScrolled s s' e =
    let r = vertical_scroll_lem s' in
    record {
      rows = λ x y p q. r.0 x y p q ∙ ap (λ m. byte_at m (video_mem + (80 * (y + 1) + x) * 2)) e;
      bottom = λ x p. r.1 x p;
      outside = λ a h. r.3 a h ∙ ap (λ m. m a) e;
      column = r.4;
      row = r.5;
    }

-- What a terminal character leads to, for each kind of character: the state `t` behind it.
pub data Typed (s : Screen) (c : ℕ) (t : Screen) : Type 0 where
  put : IsShown c → 80 * s.screen_y + s.screen_x < 1999 → IsPut s c t → Typed s c t
  put_last :
      IsShown c → 80 * s.screen_y + s.screen_x ≡ 1999 → IsScrolled (write_cell s c) t → Typed s c t
  new_line :
      is_newline c ≡ true
      → s.screen_y < 23
      → t.mem ≡ s.mem
      → t.screen_x ≡ 0
      → t.screen_y ≡ s.screen_y + 1
      → Typed s c t
  scroll_line : is_newline c ≡ true → 23 ≤ s.screen_y → IsScrolled s t → Typed s c t
  tab :
      c ≡ b'\t'
      → t.mem ≡ s.mem
      → t.screen_x ≡ s.screen_x + 3
      → t.screen_y ≡ s.screen_y
      → Typed s c t

newline-Typed :
    (s : Screen) (c : ℕ) → OnScreen s → is_newline c ≡ true → Typed s c (putc_terminal s c)
unfolding putc_terminal set_cursor_pos
newline-Typed s c v e =
    let no_tab : (c == b'\t') ≡ false = ground arith in
    elim (Bool-cases (leb 23 s.screen_y)) [
      | inl low ↦
          let b : at_least ((s.screen_y + 1) % 2 ^ 32) 24 ≡ true = ground (arith, v.row) in
          rw (no_tab, e, b) (scroll_line e (ground arith) (scroll-IsScrolled s (down_line s) refl))
      | inr high ↦
          let b : at_least ((s.screen_y + 1) % 2 ^ 32) 24 ≡ false = ground (arith, v.row) in
          rw (no_tab, e, b) (new_line e (ground arith) refl refl (omega (arith, v.row)))
    ]

shown-Typed : (s : Screen) (c : ℕ) → OnScreen s → IsShown c → Typed s c (putc_terminal s c)
unfolding putc_terminal
shown-Typed s c v sh =
    let no_tab : (c == b'\t') ≡ false = ground (arith, sh.no_tab) in
    let plain : is_newline c ≡ false = ground (arith, sh.no_newline, sh.no_return) in
    elim (Bool-cases (at_least s.screen_y 24 && at_least s.screen_x 79)) [
      | inl last ↦
          rw (no_tab, plain, last)
            (put_last sh (ground (arith, v.row, v.column))
              (scroll-IsScrolled (write_cell s c) (write_cell s c) refl))
      | inr inner ↦
          rw (no_tab, plain, inner) (put sh (ground (arith, v.row, v.column)) (step-IsPut s c v))
    ]

tab-Typed : (s : Screen) (c : ℕ) → OnScreen s → (c == b'\t') ≡ true → Typed s c (putc_terminal s c)
unfolding putc_terminal set_cursor_pos
tab-Typed s c v e = rw e (tab (ground arith) refl (omega (arith, v.column)) refl)

-- putc_terminal, from a cursor on the screen, on every kind of character: a shown one goes to its
-- cell and the cursor to the next one, and in the last cell the screen scrolls; a newline goes to
-- the start of the next row, and scrolls from row 23 on; a tab moves the cursor alone.
pub putc_terminal-Typed : (s : Screen) (c : ℕ) → OnScreen s → Typed s c (putc_terminal s c)
putc_terminal-Typed s c v = elim (Bool-cases (c == b'\t')) [
  | inl e ↦ tab-Typed s c v e
  | inr n ↦ elim (Bool-cases (is_newline c)) [
    | inl e ↦ newline-Typed s c v e
    | inr p ↦
        shown-Typed s c v
          (record { no_tab = ground arith; no_newline = ground arith; no_return = ground arith })
  ]
]
