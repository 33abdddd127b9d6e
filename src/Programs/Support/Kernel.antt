-- ===== src/Programs/Support/Kernel.antt =====
-- The routines of syscalls/ece391support.c against those of student-distrib/lib.c.
use linux_based_os.Prelude.{
  map_some, ℕ, zero, suc, ◌+◌, ◌-◌, ◌%◌, ◌^◌, ◌≡◌, ◌≢◌, ◌↔◌, refl, ap, ◌∙◌, arith, inl, inr,
  Bool-cases, leb, ◌==◌, if◌then◌else◌, Bytes, byte_at, update, pos, sub_ℕ, Option, none, some,
  Option-cases, ==→ne, ne→==, false, ltb, ◌/◌,
}
use linux_based_os.Cstring.{
  address_space, strlen, strlen_loop, biased, strncmp, strncmp_loop, strrev, strrev_loop, itoa,
  itoa_loop, lookup,
}
use linux_based_os.Programs.Support.{
  ece391_strlen, ece391_strlen_loop, ece391_strncmp, ece391_strncmp_loop, ece391_strrev,
  ece391_itoa, ece391_strrev_loop, ece391_lookup, ece391_itoa_loop,
}

ece391_strlen_loop-eq :
    (fuel : ℕ) (s : Bytes) (len : ℕ) → ece391_strlen_loop fuel s len ≡ strlen_loop fuel s len
unfolding ece391_strlen_loop strlen_loop
ece391_strlen_loop-eq zero s len = refl
ece391_strlen_loop-eq (suc fuel) s len = ground (arith, ece391_strlen_loop-eq fuel s (len + 1))

pub ece391_strlen-eq : (s : Bytes) → ece391_strlen s ≡ strlen s
unfolding ece391_strlen strlen
ece391_strlen-eq s = ece391_strlen_loop-eq address_space s 0

ece391_strrev_loop-eq :
    (left beg end : ℕ) (s : Bytes) → ece391_strrev_loop left beg end s ≡ strrev_loop left beg end s
unfolding ece391_strrev_loop strrev_loop
ece391_strrev_loop-eq zero beg end s = refl
ece391_strrev_loop-eq (suc left) beg end s =
    ap (λ rest. if ltb beg end then rest else s) (ece391_strrev_loop-eq left (beg + 1) (end - 1) _)

short_strrev :
    (s : Bytes) (len : ℕ)
    → (if leb len 1 then s else ece391_strrev_loop len 0 (len - 1) s)
      ≡ strrev_loop len 0 (len - 1) s
unfolding strrev_loop
short_strrev s zero = refl
short_strrev s (suc zero) = refl
short_strrev s (suc (suc n)) =
    let long : leb (suc (suc n)) 1 ≡ false = ground arith in
    ap (λ b. if b then s else ece391_strrev_loop (suc (suc n)) 0 (suc (suc n) - 1) s) long
    ∙ ece391_strrev_loop-eq (suc (suc n)) 0 (suc (suc n) - 1) s

same_strrev :
    (s : Bytes) (o : Option ℕ)
    → map_some (λ len. if leb len 1 then s else ece391_strrev_loop len 0 (len - 1) s) o
      ≡ map_some (λ len. strrev_loop len 0 (len - 1) s) o
same_strrev s none = refl
same_strrev s (some len) = ap some (short_strrev s len)

ece391_strrev-eq : (s : Bytes) → ece391_strrev s ≡ strrev s
unfolding ece391_strrev strrev
ece391_strrev-eq s =
    ap (map_some (λ len. if leb len 1 then s else ece391_strrev_loop len 0 (len - 1) s))
      (ece391_strlen-eq s)
    ∙ same_strrev s (strlen s)

ece391_lookup-eq : (i : ℕ) → ece391_lookup i ≡ lookup i
unfolding ece391_lookup lookup
ece391_lookup-eq i = refl

ece391_itoa_loop-eq :
    (left newval radix k : ℕ) (buf : Bytes)
    → ece391_itoa_loop left newval radix k buf ≡ itoa_loop left newval radix k buf
unfolding ece391_itoa_loop itoa_loop
ece391_itoa_loop-eq zero newval radix k buf = ground arith
ece391_itoa_loop-eq (suc left) newval radix k buf =
    let digit = update buf k (ece391_lookup (newval % radix)) in
    let rest =
      ece391_itoa_loop-eq left (newval / radix) radix (k + 1) digit
      ∙ ap (λ d. itoa_loop left (newval / radix) radix (k + 1) (update buf k d))
          (ece391_lookup-eq (newval % radix)) in
    rw rest (ground arith)

pub ece391_itoa-eq :
    (value : ℕ) (buf : Bytes) (radix : ℕ) → ece391_itoa value buf radix ≡ itoa value buf radix
unfolding ece391_itoa itoa
ece391_itoa-eq value buf radix =
    rw (ece391_itoa_loop-eq value value radix 0 buf)
      (elim (Option-cases (itoa_loop value value radix 0 buf)) [
        | inl e ↦ rw e refl
        | inr (digits, e) ↦ rw (e, ece391_strrev-eq (update digits.1 digits.0 0)) refl
      ])

sub_ℕ-ne : (a b : ℕ) → a ≢ b → sub_ℕ a b ≢ pos 0
sub_ℕ-ne a b n e = ground arith

biased-ne : (a b : ℕ) → a % 2 ^ 8 ≢ b % 2 ^ 8 → biased (a % 2 ^ 8) ≢ biased (b % 2 ^ 8)
biased-ne a b n e = ground arith

ece391_strncmp_loop_iff :
    (n i : ℕ) (s1 s2 : Bytes)
    → (ece391_strncmp_loop n i s1 s2 ≡ pos 0) ↔ (strncmp_loop n i s1 s2 ≡ pos 0)
unfolding ece391_strncmp_loop strncmp_loop
ece391_strncmp_loop_iff zero i s1 s2 = (λ e. e, λ e. e)
ece391_strncmp_loop_iff (suc n) i s1 s2 =
    let rest = ece391_strncmp_loop_iff n (i + 1) s1 s2 in
    elim (Bool-cases (byte_at s1 i == byte_at s2 i)) [
      | inl e ↦ elim (Bool-cases (byte_at s1 i == 0)) [
        | inl z ↦ (λ h. ground arith, λ h. ground arith)
        | inr nz ↦ elim (Bool-cases (n == 0)) [
          | inl last ↦ (λ h. ground arith, λ h. ground arith)
          | inr more ↦ rw (e, nz, more) rest
        ]
      ]
      | inr e ↦
          let differ = ==→ne (byte_at s1 i) (byte_at s2 i) e in
          rw e (
            λ h. absurd (sub_ℕ-ne _ _ differ h),
            λ h. absurd (sub_ℕ-ne _ _ (biased-ne _ _ differ) h),
          )
    ]

ece391_strncmp_iff :
    (s1 s2 : Bytes) (n : ℕ) → (ece391_strncmp s1 s2 n ≡ pos 0) ↔ (strncmp s1 s2 n ≡ pos 0)
unfolding ece391_strncmp strncmp ece391_strncmp_loop strncmp_loop
ece391_strncmp_iff s1 s2 zero = (λ e. e, λ e. e)
ece391_strncmp_iff s1 s2 (suc n) =
    let some_left : (0 == suc n) ≡ false = ne→== 0 (suc n) (omega arith) in
    rw some_left (ece391_strncmp_loop_iff (suc n) 0 s1 s2)

-- The routines of the user library do what those of the kernel do: strlen, strrev and itoa give
-- the same results for all arguments, not returning included, and strncmp is 0 for the same
-- arguments.
pub support-kernel :
    (s s2 : Bytes) (n radix : ℕ)
    → (ece391_strlen s ≡ strlen s)
      × (ece391_strrev s ≡ strrev s)
      × (ece391_itoa n s radix ≡ itoa n s radix)
      × ((ece391_strncmp s s2 n ≡ pos 0) ↔ (strncmp s s2 n ≡ pos 0))
support-kernel s s2 n radix =
    (ece391_strlen-eq s, ece391_strrev-eq s, ece391_itoa-eq n s radix, ece391_strncmp_iff s s2 n)
