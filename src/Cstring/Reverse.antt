-- ===== src/Cstring/Reverse.antt =====
-- strrev of student-distrib/lib.c.
use linux_based_os.Prelude.{
  ℕ, zero, suc, ◌+◌, ◌-◌, ◌^◌, ◌<◌, ◌≤◌, ◌≡◌, refl, some, arith, Bytes, byte_at, update, ltb, ◌==◌,
  ◌%◌, ◌⊎◌, ap, tests, Bool-cases, inl, inr, if◌then◌else◌,
}
use linux_based_os.Cstring.{strrev, strrev_loop}
use linux_based_os.Cstring.Scan.{HasLength, strlen_lem}

swapped :
    (s : Bytes) (a b x y j : ℕ)
    → byte_at (update (update s a x) b y) j
      ≡ (if j == b then y % 2 ^ 8 else if j == a then x % 2 ^ 8 else byte_at s j)
swapped s a b x y j = ground arith

strrev_loop_outside :
    (fuel beg end : ℕ) (s : Bytes) (j : ℕ)
    → (j < beg) ⊎ (end < j)
    → byte_at (strrev_loop fuel beg end s) j ≡ byte_at s j
unfolding strrev_loop
strrev_loop_outside zero beg end s j h = refl
strrev_loop_outside (suc fuel) beg end s j h = ground (
  arith,
  strrev_loop_outside fuel (beg + 1) (end - 1)
      (update (update s end (byte_at s beg)) beg (byte_at s end)) j,
  swapped s end beg (byte_at s beg) (byte_at s end) j,
)

strrev_loop_inside :
    (fuel beg end : ℕ) (s : Bytes) (j k : ℕ)
    → end ≤ beg + fuel
    → beg ≤ j
    → j ≤ end
    → j + k ≡ beg + end
    → byte_at (strrev_loop fuel beg end s) j ≡ byte_at s k
unfolding strrev_loop
strrev_loop_inside zero beg end s j k h p q e = ap (byte_at s) (omega arith)
strrev_loop_inside (suc fuel) beg end s j k h p q e = elim (Bool-cases (ltb beg end)) [
  | inl go ↦ rw go (
      ground (
        arith,
        strrev_loop_inside fuel (beg + 1) (end - 1)
            (update (update s end (byte_at s beg)) beg (byte_at s end)) j k,
        strrev_loop_outside fuel (beg + 1) (end - 1)
            (update (update s end (byte_at s beg)) beg (byte_at s end)) j,
        swapped s end beg (byte_at s beg) (byte_at s end) j,
        swapped s end beg (byte_at s beg) (byte_at s end) k,
      ))
  | inr stop ↦ rw stop (ap (byte_at s) (omega tests))
]

strrev_tail : (s : Bytes) (n j : ℕ) → n ≤ j → byte_at (strrev_loop n 0 (n - 1) s) j ≡ byte_at s j
unfolding strrev_loop
strrev_tail s zero j p = refl
strrev_tail s (suc n) j p = strrev_loop_outside (suc n) 0 (suc n - 1) s j (inr (omega arith))

-- strrev returns; it reverses the string before its first NUL and changes nothing from there on.
pub strrev_lem :
    (s : Bytes) (n : ℕ)
    → HasLength s n
    → n < 2 ^ 32
    → (out : Bytes) × (strrev s ≡ some out)
      × ((j : ℕ) → j < n → byte_at out j ≡ byte_at s (n - 1 - j))
      × ((j : ℕ) → n ≤ j → byte_at out j ≡ byte_at s j)
unfolding strrev
strrev_lem s n h fits = (
  strrev_loop n 0 (n - 1) s,
  rw (strlen_lem s n h fits),
  λ j p.
      strrev_loop_inside n 0 (n - 1) s j (n - 1 - j) (omega arith) (omega arith) (omega arith)
        (omega arith),
  strrev_tail s n,
)
