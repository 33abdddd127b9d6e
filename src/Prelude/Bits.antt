-- ===== src/Prelude/Bits.antt =====
-- `&` and `|` on the fields of a word, as arithmetic on the halves above and below a bit.
use Prim.Native.Nat.{
  ℕ, zero, suc, ◌+◌, ◌-◌, ◌*◌, ◌/◌, ◌%◌, ◌^◌, ◌≤◌, ◌<◌, min, max, bit_and, bit_or,
}
use Prim.Native.Nat.{digits, bitwise, bit_and-bitwise, bit_or-bitwise}
use mathlib.Core.Path.{◌≡◌, refl, ap}
use native.Mathlib.Nat.{pow-suc, le_refl}
use native.Mathlib.Omega.{arith}

-- `bitwise` recurs on fuel; any fuel that is enough gives the same.
module _ (z : ℕ → ℕ) (f : ℕ → ℕ → ℕ) where
  digits_enough : (n m a b : ℕ) → a ≤ n → a ≤ m → digits z f n a b ≡ digits z f m a b
  digits_enough zero zero a b p q = refl
  digits_enough zero (suc m) zero b p q = refl
  digits_enough zero (suc m) (suc a) b p q = absurd (omega arith)
  digits_enough (suc n) zero zero b p q = refl
  digits_enough (suc n) zero (suc a) b p q = absurd (omega arith)
  digits_enough (suc n) (suc m) zero b p q = refl
  digits_enough (suc n) (suc m) (suc a) b p q =
      rw (digits_enough n m (suc a / 2) (b / 2) (omega arith) (omega arith))

  bitwise_halve :
      (a b : ℕ)
      → bitwise z f (suc a) b ≡ bitwise z f (suc a / 2) (b / 2) * 2 + f (suc a % 2) (b % 2)
  bitwise_halve a b =
      omega (arith, digits_enough a (suc a / 2) (suc a / 2) (b / 2) (omega arith) (le_refl _))

-- One binary digit of `&` and of `|`.
pub bit_and_halve : (a b : ℕ) → bit_and a b ≡ bit_and (a / 2) (b / 2) * 2 + min (a % 2) (b % 2)
bit_and_halve zero b = simp bit_and-bitwise (omega arith)
bit_and_halve (suc a) b = simp bit_and-bitwise (bitwise_halve (λ y. 0) min a b)

pub bit_or_halve : (a b : ℕ) → bit_or a b ≡ bit_or (a / 2) (b / 2) * 2 + max (a % 2) (b % 2)
bit_or_halve zero b = simp bit_or-bitwise (omega arith)
bit_or_halve (suc a) b = simp bit_or-bitwise (bitwise_halve (λ y. y) max a b)

double : (q k : ℕ) → q * 2 ^ suc k ≡ 2 * (q * 2 ^ k)
double q k = omega (arith, ap (λ (t : ℕ). q * t) (pow-suc 2 k))

and-zero-fuel : (n a : ℕ) → a ≤ n → bit_and a 0 ≡ 0
and-zero-fuel n zero h = refl
and-zero-fuel zero (suc a) h = absurd (omega arith)
and-zero-fuel (suc n) (suc a) h =
    omega (arith, bit_and_halve (suc a) 0, and-zero-fuel n (suc a / 2) (omega arith))

pub bit_and-zero : (a : ℕ) → bit_and a 0 ≡ 0
bit_and-zero a = and-zero-fuel a a (le_refl _)

or-zero-fuel : (n a : ℕ) → a ≤ n → bit_or a 0 ≡ a
or-zero-fuel n zero h = refl
or-zero-fuel zero (suc a) h = absurd (omega arith)
or-zero-fuel (suc n) (suc a) h =
    omega (arith, bit_or_halve (suc a) 0, or-zero-fuel n (suc a / 2) (omega arith))

pub bit_or-zero : (a : ℕ) → bit_or a 0 ≡ a
bit_or-zero a = or-zero-fuel a a (le_refl _)

pub zero-bit_and : (a : ℕ) → bit_and 0 a ≡ 0
zero-bit_and a = bit_and-bitwise 0 a

pub zero-bit_or : (a : ℕ) → bit_or 0 a ≡ a
zero-bit_or a = bit_or-bitwise 0 a

-- `&` and `|` act on the part above bit `k` and on the part below it separately.
pub bit_and_split :
    (k p q r s : ℕ)
    → r < 2 ^ k
    → s < 2 ^ k
    → bit_and (p * 2 ^ k + r) (q * 2 ^ k + s) ≡ bit_and p q * 2 ^ k + bit_and r s
bit_and_split zero p q zero zero hr hs = ground arith
bit_and_split zero p q (suc r) s hr hs = absurd (omega arith)
bit_and_split zero p q zero (suc s) hr hs = absurd (omega arith)
bit_and_split (suc k) p q r s hr hs = ground (
  arith,
  pow-suc 2 k,
  double p k,
  double q k,
  double (bit_and p q) k,
  bit_and_halve (p * 2 ^ suc k + r) (q * 2 ^ suc k + s),
  bit_and_halve r s,
  bit_and_split k p q (r / 2) (s / 2) (omega (arith, pow-suc 2 k)) (omega (arith, pow-suc 2 k)),
)

pub bit_or_split :
    (k p q r s : ℕ)
    → r < 2 ^ k
    → s < 2 ^ k
    → bit_or (p * 2 ^ k + r) (q * 2 ^ k + s) ≡ bit_or p q * 2 ^ k + bit_or r s
bit_or_split zero p q zero zero hr hs = ground arith
bit_or_split zero p q (suc r) s hr hs = absurd (omega arith)
bit_or_split zero p q zero (suc s) hr hs = absurd (omega arith)
bit_or_split (suc k) p q r s hr hs = ground (
  arith,
  pow-suc 2 k,
  double p k,
  double q k,
  double (bit_or p q) k,
  bit_or_halve (p * 2 ^ suc k + r) (q * 2 ^ suc k + s),
  bit_or_halve r s,
  bit_or_split k p q (r / 2) (s / 2) (omega (arith, pow-suc 2 k)) (omega (arith, pow-suc 2 k)),
)

-- A mask of `k` ones keeps the remainder by `2 ^ k`.
pub bit_and_ones : (k r : ℕ) → r < 2 ^ k → bit_and r (2 ^ k - 1) ≡ r
bit_and_ones zero zero h = refl
bit_and_ones zero (suc r) h = absurd (omega arith)
bit_and_ones (suc k) r h = ground (
  arith,
  pow-suc 2 k,
  bit_and_halve r (2 ^ suc k - 1),
  bit_and_ones k (r / 2) (omega (arith, pow-suc 2 k)),
)

pub ones-bit_and : (k r : ℕ) → r < 2 ^ k → bit_and (2 ^ k - 1) r ≡ r
ones-bit_and zero zero h = refl
ones-bit_and zero (suc r) h = absurd (omega arith)
ones-bit_and (suc k) r h = ground (
  arith,
  pow-suc 2 k,
  bit_and_halve (2 ^ suc k - 1) r,
  ones-bit_and k (r / 2) (omega (arith, pow-suc 2 k)),
)
