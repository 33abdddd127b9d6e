-- ===== src/Cstring/Scan.antt =====
-- strlen of student-distrib/lib.c against the place of the first NUL.
use linux_based_os.Prelude.{
  ℕ, zero, suc, ◌+◌, ◌^◌, ◌≤◌, ◌<◌, ◌≡◌, ◌≢◌, some, inl, inr, arith, Bytes, byte_at, ◌==◌,
  Bool-cases, ==→eq, ==→ne,
}
use linux_based_os.Cstring.{strlen, strlen_loop, address_space}

-- The string at `s` has its first NUL at place `n`.
pub record HasLength (s : Bytes) (n : ℕ) : Type 0 where
  pub ends : byte_at s n ≡ 0
  pub before : (j : ℕ) → j < n → byte_at s j ≢ 0

strlen_loop_lem :
    (fuel : ℕ) (s : Bytes) (len n : ℕ)
    → HasLength s n
    → len ≤ n
    → n < len + fuel
    → strlen_loop fuel s len ≡ some n
unfolding strlen_loop
strlen_loop_lem zero s len n h lo hi = absurd (omega arith)
strlen_loop_lem (suc fuel) s len n h lo hi =
    ground (arith, h.ends, h.before len, strlen_loop_lem fuel s (len + 1) n h)

-- strlen returns the place of the first NUL, for any string that fits the address space.
pub strlen_lem : (s : Bytes) (n : ℕ) → HasLength s n → n < 2 ^ 32 → strlen s ≡ some n
unfolding strlen
strlen_lem s n h fits = strlen_loop_lem address_space s 0 n h (omega arith) (omega arith)

strlen_loop-HasLength :
    (fuel : ℕ) (s : Bytes) (len : ℕ) {n : ℕ}
    → ((j : ℕ) → j < len → byte_at s j ≢ 0)
    → strlen_loop fuel s len ≡ some n
    → HasLength s n
unfolding strlen_loop
strlen_loop-HasLength zero s len h e = absurd (ground arith)
strlen_loop-HasLength (suc fuel) s len {n} h e = elim (Bool-cases (byte_at s len == 0)) [
  | inl stop ↦
      let at_len : len ≡ n = ground arith in
      rw (← at_len) (record { ends = ==→eq _ _ stop; before = h })
  | inr more ↦
      strlen_loop-HasLength fuel s (len + 1) (λ j p. ground (arith, h j, ==→ne _ _ more))
        (ground arith)
]

pub strlen-HasLength : (s : Bytes) {n : ℕ} → strlen s ≡ some n → HasLength s n
unfolding strlen
strlen-HasLength s e = strlen_loop-HasLength address_space s 0 (λ j p. absurd (omega arith)) e
