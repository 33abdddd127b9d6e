-- ===== src/Screen/Cursor.antt =====
-- The coordinates of the screen of student-distrib/lib.c, and the words for the cursor.
use linux_based_os.Prelude.{
  ℕ, ◌+◌, ◌-◌, ◌*◌, ◌/◌, ◌%◌, ◌^◌, ◌<◌, ◌≡◌, ap, ap₂, ◌∙◌, arith, bit_and, bit_or, ◌∷◌,
}
use linux_based_os.Prelude.Bits.{
  bit_and_split, bit_or_split, bit_and-zero, bit_or-zero, bit_and_ones, zero-bit_or,
}
use linux_based_os.Screen.{Screen, set_cursor_pos}

-- The coordinates name a cell.
pub record OnScreen (s : Screen) : Type 0 where
  pub column : s.screen_x < 80
  pub row : s.screen_y < 25

split_byte : (p : ℕ) → p ≡ p / 2 ^ 8 * 2 ^ 8 + p % 2 ^ 8
split_byte p = omega arith

-- Keeps the high byte of a word of 16 bits, here of any number.
and_high : (p : ℕ) → bit_and p 0xFF00 ≡ bit_and (p / 2 ^ 8) (2 ^ 8 - 1) * 2 ^ 8
and_high p =
    ap (λ q. bit_and q 0xFF00) (split_byte p)
    ∙ bit_and_split 8 (p / 2 ^ 8) 0xFF (p % 2 ^ 8) 0 (omega arith) (omega arith)
    ∙ omega (arith, bit_and-zero (p % 2 ^ 8))

split_zero : (q : ℕ) → q * 2 ^ 8 ≡ q * 2 ^ 8 + 0
split_zero q = omega arith

zero_high : (r : ℕ) → r ≡ 0 * 2 ^ 8 + r
zero_high r = omega arith

or_low : (r q : ℕ) → r < 2 ^ 8 → bit_or r (q * 2 ^ 8) ≡ q * 2 ^ 8 + r
or_low r q h =
    ap₂ bit_or (zero_high r) (split_zero q)
    ∙ bit_or_split 8 0 q r 0 h (omega arith)
    ∙ omega (arith, bit_or-zero r, zero-bit_or q)

and_byte : (p : ℕ) → bit_and p (2 ^ 8 - 1) ≡ p % 2 ^ 8
and_byte p =
    ap (λ q. bit_and q (2 ^ 8 - 1)) (split_byte p)
    ∙ bit_and_split 8 (p / 2 ^ 8) 0 (p % 2 ^ 8) (2 ^ 8 - 1) (omega arith) (omega arith)
    ∙ omega (arith, bit_and-zero (p / 2 ^ 8), bit_and_ones 8 (p % 2 ^ 8) (omega arith))

with_high : (p r : ℕ) → r < 2 ^ 8 → bit_or r (bit_and p 0xFF00) ≡ p / 2 ^ 8 % 2 ^ 8 * 2 ^ 8 + r
with_high p r h =
    ap (bit_or r) (and_high p ∙ ap (λ b. b * 2 ^ 8) (and_byte (p / 2 ^ 8)))
    ∙ or_low r (p / 2 ^ 8 % 2 ^ 8) h

-- The number of the cell under the cursor, as the device gets it.
abbrev pub position : Screen → ℕ
position s = (80 * s.screen_y + s.screen_x) % 2 ^ 16

-- set_cursor_pos sends two words to port 0x3D4: the number of a cursor register, 14 and 15, in
-- the low byte, and the high and the low byte of the cell's number in the high byte. Nothing
-- else changes.
pub set_cursor_pos_lem :
    (s : Screen)
    → set_cursor_pos s ≡ record s {
      outs =
          (position s % 2 ^ 8 * 2 ^ 8 + 15, 0x3D4)
          ∷ (position s / 2 ^ 8 * 2 ^ 8 + 14, 0x3D4)
          ∷ s.outs;
    }
unfolding set_cursor_pos
set_cursor_pos_lem s =
    let p = position s in
    let high = with_high p 14 (omega arith) in
    let low = with_high (p * 2 ^ 8) 15 (omega arith) in
    ap₂ (λ a b. record s { outs = (a, 0x3D4) ∷ (b, 0x3D4) ∷ s.outs }) (low ∙ omega arith)
      (high ∙ omega arith)
