-- ===== src/Screen/Scroll.antt =====
-- vertical_scroll and clear of student-distrib/lib.c, cell by cell.
use linux_based_os.Prelude.{
  ℕ, zero, suc, ◌+◌, ◌*◌, ◌%◌, ◌^◌, ◌<◌, ◌≤◌, ◌≡◌, refl, ap, ap₂, ◌∙◌, Bool, false, arith, ltb, leb,
  ◌==◌, ◌&&◌, if◌then◌else◌, ◌⊎◌, Bool-cases, inl, inr, Bytes, byte_at,
}
use linux_based_os.Screen.{
  Screen, video_mem, attrib, clear_loop, clear, move_row, move_rows, clear_bottom, vertical_scroll,
  set_screen, set_cursor_pos,
}

-- The cells of a row are two addresses apart, and so are the rows from one another by 160.
move_row_lem :
    (left x y : ℕ) (mem : Bytes) (a : ℕ)
    → x + left ≡ 80
    → move_row left x y mem a ≡ (
        if leb (video_mem + (80 * y + x) * 2) a && ltb a (video_mem + 160 * (y + 1)) && (a % 2 == 0)
        then byte_at mem (a + 160)
        else mem a)
unfolding move_row
move_row_lem zero x y mem a e = ground arith
move_row_lem (suc left) x y mem a e = move_row_lem left (x + 1) y _ a (omega arith) ∙ ground arith

below_row :
    (y : ℕ) (mem : Bytes) (a : ℕ) → video_mem + 160 * (y + 1) ≤ a → move_row 80 0 y mem a ≡ mem a
below_row y mem a h = ground (arith, move_row_lem 80 0 y mem a refl)

-- The addresses of characters in the rows from `lo` to before `hi`.
abbrev in_rows : ℕ → ℕ → ℕ → Bool
in_rows lo hi a = leb (video_mem + 160 * lo) a && ltb a (video_mem + 160 * hi) && (a % 2 == 0)

in_rows-below :
    (y left a : ℕ)
    → video_mem + 160 * (y + 1) ≤ a
    → in_rows (y + 1) (y + 1 + left) a ≡ in_rows y (y + suc left) a
in_rows-below y left a h = ground arith

in_rows-above : (lo hi a : ℕ) → a < video_mem + 160 * lo → in_rows lo hi a ≡ false
in_rows-above lo hi a h = ground arith

in_rows-one :
    (y left a : ℕ)
    → a < video_mem + 160 * (y + 1)
    → in_rows y (y + 1) a ≡ in_rows y (y + suc left) a
in_rows-one y left a h = ground arith

moved_row :
    (y : ℕ) (mem : Bytes) (a : ℕ)
    → move_row 80 0 y mem a ≡ (if in_rows y (y + 1) a then byte_at mem (a + 160) else mem a)
moved_row y mem a =
    move_row_lem 80 0 y mem a refl
    ∙ ap (λ b. if b then byte_at mem (a + 160) else mem a) (ground arith)

move_rows_lem :
    (left y : ℕ) (mem : Bytes) (a : ℕ)
    → move_rows left y mem a ≡ (if in_rows y (y + left) a then byte_at mem (a + 160) else mem a)
unfolding move_rows
move_rows_lem zero y mem a = ground arith
move_rows_lem (suc left) y mem a = elim (Bool-cases (leb (video_mem + 160 * (y + 1)) a)) [
  | inl below ↦
      move_rows_lem left (y + 1) _ a
      ∙ ap₂ (λ u w. if in_rows (y + 1) (y + 1 + left) a then u % 2 ^ 8 else w)
          (below_row y mem (a + 160) (ground arith)) (below_row y mem a (ground arith))
      ∙ ap (λ b. if b then byte_at mem (a + 160) else mem a) (in_rows-below y left a (ground arith))
  | inr above ↦
      move_rows_lem left (y + 1) _ a
      ∙ rw (in_rows-above (y + 1) (y + 1 + left) a (ground arith)) (
          moved_row y mem a
          ∙ ap (λ b. if b then byte_at mem (a + 160) else mem a)
              (in_rows-one y left a (ground arith)))
]

clear_bottom_lem :
    (left x : ℕ) (mem : Bytes) (a : ℕ)
    → x + left ≡ 80
    → clear_bottom left x mem a ≡ (
        if leb (video_mem + (1920 + x) * 2) a && ltb a (video_mem + 4000) && (a % 2 == 0)
        then b' '
        else mem a)
unfolding clear_bottom
clear_bottom_lem zero x mem a e = ground arith
clear_bottom_lem (suc left) x mem a e =
    clear_bottom_lem left (x + 1) _ a (omega arith) ∙ ground arith

-- Every address behind a scroll.
scrolled :
    (s : Screen) (a : ℕ)
    → (vertical_scroll s).mem a ≡ (
        if leb (video_mem + 3840) a && ltb a (video_mem + 4000) && (a % 2 == 0)
        then b' '
        else if leb video_mem a && ltb a (video_mem + 3840) && (a % 2 == 0)
        then byte_at s.mem (a + 160)
        else s.mem a)
unfolding vertical_scroll set_screen set_cursor_pos
scrolled s a =
    clear_bottom_lem 80 0 (move_rows 24 0 s.mem) a refl
    ∙ ap
        (λ z.
          if leb (video_mem + 3840) a && ltb a (video_mem + 4000) && (a % 2 == 0) then b' ' else z)
        (move_rows_lem 24 0 s.mem a)

-- A picture of the screen: the character and the attribute of each cell.
abbrev pub char_at : Screen → ℕ → ℕ → ℕ
char_at s x y = byte_at s.mem (video_mem + (80 * y + x) * 2)

abbrev pub attr_at : Screen → ℕ → ℕ → ℕ
attr_at s x y = byte_at s.mem (video_mem + (80 * y + x) * 2 + 1)

-- vertical_scroll moves the characters of each row but the first one row up, and blanks the
-- bottom row; all attributes, and the memory outside the screen, stay as they are. The cursor
-- goes to the start of the bottom row.
pub vertical_scroll_lem :
    (s : Screen)
    → let t = vertical_scroll s in
      ((x y : ℕ) → x < 80 → y < 24 → char_at t x y ≡ char_at s x (y + 1))
      × ((x : ℕ) → x < 80 → char_at t x 24 ≡ b' ')
      × ((x y : ℕ) → attr_at t x y ≡ attr_at s x y)
      × ((a : ℕ) → (a < video_mem) ⊎ (video_mem + 4000 ≤ a) → t.mem a ≡ s.mem a)
      × (t.screen_x ≡ 0)
      × (t.screen_y ≡ 24)
vertical_scroll_lem s = (
  λ x y p q. ground (arith, scrolled s (video_mem + (80 * y + x) * 2)),
  λ x p. ground (arith, scrolled s (video_mem + (80 * 24 + x) * 2)),
  λ x y. ground (arith, scrolled s (video_mem + (80 * y + x) * 2 + 1)),
  λ a h. ground (arith, scrolled s a),
  unfold vertical_scroll set_screen set_cursor_pos in refl,
  unfold vertical_scroll set_screen set_cursor_pos in refl,
)

clear_loop_lem :
    (left i : ℕ) (mem : Bytes) (a : ℕ)
    → i + left ≡ 2000
    → clear_loop left i mem a ≡ (
        if leb (video_mem + i * 2) a && ltb a (video_mem + 4000)
        then if a % 2 == 0 then b' ' else attrib
        else mem a)
unfolding clear_loop
clear_loop_lem zero i mem a e = ground arith
clear_loop_lem (suc left) i mem a e = clear_loop_lem left (i + 1) _ a (omega arith) ∙ ground arith

-- clear blanks every cell of the screen, with the standard attribute, and writes nothing else; it
-- leaves the coordinates as they are.
pub clear_lem :
    (s : Screen)
    → let t = clear s in
      ((x y : ℕ) → x < 80 → y < 25 → (char_at t x y ≡ b' ') × (attr_at t x y ≡ attrib))
      × ((a : ℕ) → (a < video_mem) ⊎ (video_mem + 4000 ≤ a) → t.mem a ≡ s.mem a)
      × (t.screen_x ≡ s.screen_x)
      × (t.screen_y ≡ s.screen_y)
unfolding clear
clear_lem s = (
  λ x y p q. (
    ground (arith, clear_loop_lem 2000 0 s.mem (video_mem + (80 * y + x) * 2) refl),
    ground (arith, clear_loop_lem 2000 0 s.mem (video_mem + (80 * y + x) * 2 + 1) refl),
  ),
  λ a h. ground (arith, clear_loop_lem 2000 0 s.mem a refl),
  refl,
  refl,
)
