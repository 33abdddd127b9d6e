-- ===== src/Cstring/Compare.antt =====
-- strncmp of student-distrib/lib.c against equality of strings.
use linux_based_os.Prelude.{
  ℕ, zero, suc, ◌+◌, ◌<◌, ◌≤◌, ◌≡◌, ◌≢◌, ◌↔◌, refl, arith, Bytes, byte_at, pos, ◌==◌, ==→eq, tests,
  Bool-cases, inl, inr,
}
use linux_based_os.Cstring.{strncmp, strncmp_loop}

-- Two strings agree in their first `n` places as far as their first NUL.
abbrev pub Agree : ℕ → ℕ → Bytes → Bytes → Type 0
Agree i n s1 s2 =
    (j : ℕ)
    → i ≤ j
    → j < n
    → ((k : ℕ) → i ≤ k → k < j → byte_at s1 k ≢ 0)
    → byte_at s1 j ≡ byte_at s2 j

first :
    (left i : ℕ) (s1 s2 : Bytes)
    → strncmp_loop (suc left) i s1 s2 ≡ pos 0
    → byte_at s1 i ≡ byte_at s2 i
unfolding strncmp_loop
first left i s1 s2 e = ground arith

rest :
    (left i : ℕ) (s1 s2 : Bytes)
    → strncmp_loop (suc left) i s1 s2 ≡ pos 0
    → byte_at s1 i ≢ 0
    → strncmp_loop left (i + 1) s1 s2 ≡ pos 0
unfolding strncmp_loop
rest left i s1 s2 e ne = ground arith

strncmp_loop-Agree :
    (left i : ℕ) (s1 s2 : Bytes) → strncmp_loop left i s1 s2 ≡ pos 0 → Agree i (i + left) s1 s2
unfolding strncmp_loop
strncmp_loop-Agree zero i s1 s2 e j p q r = absurd (omega arith)
strncmp_loop-Agree (suc left) i s1 s2 e j p q r = elim (Bool-cases (i == j)) [
  | inl here ↦ rw (← ==→eq _ _ here) (first left i s1 s2 e)
  | inr later ↦
      let p' : i + 1 ≤ j = omega tests in
      strncmp_loop-Agree left (i + 1) s1 s2 (rest left i s1 s2 e (r i (omega arith) (omega arith)))
        j p' (omega arith) (λ k u v. r k (omega arith) v)
]

Agree-strncmp_loop :
    (left i : ℕ) (s1 s2 : Bytes) → Agree i (i + left) s1 s2 → strncmp_loop left i s1 s2 ≡ pos 0
unfolding strncmp_loop
Agree-strncmp_loop zero i s1 s2 h = refl
Agree-strncmp_loop (suc left) i s1 s2 h =
    let here : byte_at s1 i ≡ byte_at s2 i =
      h i (omega arith) (omega arith) (λ k p q. absurd (omega arith)) in
    elim (Bool-cases (byte_at s1 i == 0)) [
      | inl stop ↦ ground arith
      | inr more ↦
          let rest =
            Agree-strncmp_loop left (i + 1) s1 s2
              (λ j p q r. h j (omega arith) (omega arith) (λ k u v. ground (arith, r k))) in
          ground arith
    ]

-- strncmp returns 0 exactly when the strings agree in the first `n` places up to their first NUL.
pub strncmp_iff : (s1 s2 : Bytes) (n : ℕ) → (strncmp s1 s2 n ≡ pos 0) ↔ Agree 0 n s1 s2
unfolding strncmp
strncmp_iff s1 s2 n = (
  λ e j p q r. strncmp_loop-Agree n 0 s1 s2 e j p (omega arith) r,
  λ h. Agree-strncmp_loop n 0 s1 s2 (λ j p q r. h j p (omega arith) r),
)
