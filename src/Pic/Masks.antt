-- ===== src/Pic/Masks.antt =====
-- The masks of student-distrib/i8259.c, line by line.
use linux_based_os.Prelude.{
  ℕ, zero, suc, ◌-◌, ◌/◌, ◌%◌, ◌^◌, ◌<◌, ◌≡◌, refl, ap, ◌∙◌, arith, min, max, ltb, ◌==◌,
  if◌then◌else◌, bit_and, bit_or,
}
use native.Mathlib.Nat.{pow-suc}
use linux_based_os.Prelude.Bits.{bit_and_halve, bit_or_halve}
use linux_based_os.Pic.{Pic, clear_bit, set_bit, enable_irq, disable_irq}

-- Bit `k` of a word.
unfoldable pub bit : ℕ → ℕ → ℕ
bit zero w = w % 2
bit (suc k) w = bit k (w / 2)

bit-and : (k a b : ℕ) → bit k (bit_and a b) ≡ min (bit k a) (bit k b)
unfolding bit
bit-and zero a b = omega (arith, bit_and_halve a b)
bit-and (suc k) a b = ap (bit k) (omega (arith, bit_and_halve a b)) ∙ bit-and k (a / 2) (b / 2)

bit-or : (k a b : ℕ) → bit k (bit_or a b) ≡ max (bit k a) (bit k b)
unfolding bit
bit-or zero a b = omega (arith, bit_or_halve a b)
bit-or (suc k) a b = ap (bit k) (omega (arith, bit_or_halve a b)) ∙ bit-or k (a / 2) (b / 2)

bit-lt : (k w : ℕ) → bit k w < 2
unfolding bit
bit-lt zero w = omega arith
bit-lt (suc k) w = bit-lt k (w / 2)

bit-byte : (k w : ℕ) → k < 8 → bit k (w % 2 ^ 8) ≡ bit k w
unfolding bit
bit-byte zero w h = omega arith
bit-byte (suc zero) w h = omega arith
bit-byte (suc (suc zero)) w h = omega arith
bit-byte (suc (suc (suc zero))) w h = omega arith
bit-byte (suc (suc (suc (suc zero)))) w h = omega arith
bit-byte (suc (suc (suc (suc (suc zero))))) w h = omega arith
bit-byte (suc (suc (suc (suc (suc (suc zero)))))) w h = omega arith
bit-byte (suc (suc (suc (suc (suc (suc (suc zero))))))) w h = omega arith
bit-byte (suc (suc (suc (suc (suc (suc (suc (suc k)))))))) w h = absurd (omega arith)

pow_pos : (n : ℕ) → 0 < 2 ^ n
pow_pos zero = omega arith
pow_pos (suc n) = omega (arith, pow-suc 2 n, pow_pos n)

pow_lt : (n w : ℕ) → n < w → 2 ^ n < 2 ^ w
pow_lt n zero h = absurd (omega arith)
pow_lt zero (suc w) h = omega (arith, pow-suc 2 w, pow_pos w)
pow_lt (suc n) (suc w) h = omega (arith, pow-suc 2 n, pow-suc 2 w, pow_lt n w (omega arith))

bit-zero : (k : ℕ) → bit k 0 ≡ 0
unfolding bit
bit-zero zero = refl
bit-zero (suc k) = bit-zero k

bit-ones : (w k : ℕ) → k < w → bit k (2 ^ w - 1) ≡ 1
unfolding bit
bit-ones zero k h = absurd (omega arith)
bit-ones (suc w) zero h = omega (arith, pow-suc 2 w, pow_pos w)
bit-ones (suc w) (suc k) h =
    ap (bit k) (omega (arith, pow-suc 2 w, pow_pos w)) ∙ bit-ones w k (omega arith)

bit-pow : (k n : ℕ) → bit k (2 ^ n) ≡ (if k == n then 1 else 0)
unfolding bit
bit-pow zero zero = refl
bit-pow zero (suc n) = ground (arith, pow-suc 2 n)
bit-pow (suc k) zero = bit-zero k ∙ ground arith
bit-pow (suc k) (suc n) = ap (bit k) (omega (arith, pow-suc 2 n)) ∙ bit-pow k n ∙ ground arith

-- All lines but `n`, of `w` lines.
bit-others : (w k n : ℕ) → k < w → n < w → bit k (2 ^ w - 1 - 2 ^ n) ≡ (if k == n then 0 else 1)
unfolding bit
bit-others zero k n p q = absurd (omega arith)
bit-others (suc w) zero zero p q = ground (arith, pow-suc 2 w)
bit-others (suc w) zero (suc n) p q =
    ground (arith, pow-suc 2 w, pow-suc 2 n, pow_lt n w (omega arith))
bit-others (suc w) (suc k) zero p q =
    ap (bit k) (omega (arith, pow-suc 2 w)) ∙ bit-ones w k (omega arith) ∙ ground arith
bit-others (suc w) (suc k) (suc n) p q =
    ap (bit k) (omega (arith, pow-suc 2 w, pow-suc 2 n, pow_lt n w (omega arith)))
    ∙ bit-others w k n (omega arith) (omega arith)
    ∙ ground arith

-- Line `k` of the controllers is masked, 0 to 7 at the master and 8 to 15 at the slave.
unfoldable pub masked : Pic → ℕ → ℕ
masked p k = if ltb k 8 then bit k p.master_mask else bit (k - 8) p.slave_mask

bit-clear_bit :
    (k n mask : ℕ) → k < 8 → n < 8 → bit k (clear_bit mask n) ≡ (if k == n then 0 else bit k mask)
unfolding clear_bit
bit-clear_bit k n mask p q =
    bit-byte k _ p
    ∙ bit-and k mask (2 ^ 32 - 1 - 2 ^ n)
    ∙ ground (arith, bit-others 32 k n (omega arith) (omega arith), bit-lt k mask)

bit-set_bit :
    (k n mask : ℕ) → k < 8 → n < 8 → bit k (set_bit mask n) ≡ (if k == n then 1 else bit k mask)
unfolding set_bit
bit-set_bit k n mask p q =
    bit-byte k _ p ∙ bit-or k mask (2 ^ n) ∙ ground (arith, bit-pow k n, bit-lt k mask)

-- enable_irq unmasks its line and no other, and disable_irq masks its line and no other, at
-- whichever controller the line is.
pub enable_irq_lem :
    (p : Pic) (irq_num k : ℕ)
    → irq_num < 16
    → k < 16
    → (masked (enable_irq p irq_num) k ≡ (if k == irq_num then 0 else masked p k))
      × (masked (disable_irq p irq_num) k ≡ (if k == irq_num then 1 else masked p k))
unfolding masked enable_irq disable_irq
enable_irq_lem p irq_num k h q = (
  ground (
    arith,
    bit-clear_bit k irq_num p.master_mask,
    bit-clear_bit (k - 8) (irq_num - 8) p.slave_mask,
  ),
  ground
      (arith, bit-set_bit k irq_num p.master_mask, bit-set_bit (k - 8) (irq_num - 8) p.slave_mask),
)
