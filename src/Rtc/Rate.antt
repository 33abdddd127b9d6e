-- ===== src/Rtc/Rate.antt =====
-- The rates of rtc_write in student-distrib/rtc_driver.c.
use linux_based_os.Prelude.{
  ℕ, zero, suc, ◌+◌, ◌-◌, ◌*◌, ◌/◌, ◌%◌, ◌^◌, ◌<◌, ◌≤◌, ◌≡◌, ◌≢◌, ◌⊎◌, inl, inr, refl, ap, ap₂, sym,
  ◌∙◌, arith, Bool, true, false, ◌&&◌, leb, ◌==◌, if◌then◌else◌, Option, none, some, Bytes, byte_at,
  bit_and, bit_or, ℤ, pos, failure, List, Option-cases, ◌∷◌,
}
use linux_based_os.Prelude.Below.{all_below, all_below_lem}
use linux_based_os.Prelude.Bits.{
  bit_and_split, bit_or_split, bit_and-zero, bit_or-zero, zero-bit_or, bit_and_ones,
}
use linux_based_os.Rtc.{Rtc, base_loop, rate_base, set_rate, rtc_write, rtc_port, rtc_reg_a}

-- The rates that are taken, with their exponents.
abbrev pub exponent : ℕ → Option ℕ
exponent rate =
    if rate == 4
    then some 2
    else if rate == 8
    then some 3
    else if rate == 16
    then some 4
    else if rate == 32
    then some 5
    else if rate == 64
    then some 6
    else if rate == 128
    then some 7
    else none

abbrev same_option : Option ℕ → Option ℕ → Bool
same_option none none = true
same_option (some a) (some b) = a == b
same_option none (some b) = false
same_option (some a) none = false

same_option-eq : (a b : Option ℕ) → same_option a b ≡ true → a ≡ b
same_option-eq none none h = refl
same_option-eq (some a) (some b) h = ap some (ground arith)
same_option-eq none (some b) h = absurd (ground arith)
same_option-eq (some a) none h = absurd (ground arith)

all_rates : all_below 256 (λ rate. same_option (rate_base rate) (exponent rate)) ≡ true
unfolding all_below rate_base base_loop
all_rates = refl

rate_base-exponent : (rate : ℕ) → rate < 256 → rate_base rate ≡ exponent rate
rate_base-exponent rate h =
    same_option-eq _ _
      (all_below_lem 256 (λ q. same_option (rate_base q) (exponent q)) rate all_rates h)

halves : (p : ℕ) → p ≡ p / 2 ^ 4 * 2 ^ 4 + p % 2 ^ 4
halves p = omega arith

low_half : (v : ℕ) → v ≡ 0 * 2 ^ 4 + v
low_half v = omega arith

high_half : (p : ℕ) → p < 256 → bit_and p 0xF0 ≡ p / 2 ^ 4 * 2 ^ 4 + 0
high_half p h =
    ap (λ q. bit_and q 0xF0) (halves p)
    ∙ bit_and_split 4 (p / 2 ^ 4) 0xF (p % 2 ^ 4) 0 (omega arith) (omega arith)
    ∙ omega (arith, bit_and-zero (p % 2 ^ 4), bit_and_ones 4 (p / 2 ^ 4) (omega arith))

register_value :
    (prev v : ℕ)
    → prev < 256
    → v < 16
    → bit_or (bit_and prev 0xF0) (bit_and v 0x0F) % 2 ^ 8 ≡ prev / 16 * 16 + v
register_value prev v h k =
    ap (λ w. w % 2 ^ 8)
      (ap₂ bit_or (high_half prev h) (bit_and_ones 4 v k ∙ low_half v)
        ∙ bit_or_split 4 (prev / 2 ^ 4) 0 0 v (omega arith) k)
    ∙ omega (arith, bit_or-zero (prev / 2 ^ 4), zero-bit_or v)

-- The words of a successful rtc_write, the last one first.
abbrev pub rate_words : ℕ → ℕ → List (ℕ × ℕ) → List (ℕ × ℕ)
rate_words prev n outs =
    (prev / 16 * 16 + (16 - n), rtc_port + 1) ∷ (rtc_reg_a, rtc_port) ∷ (rtc_reg_a, rtc_port) ∷ outs

set_rate-outs :
    (r : Rtc) (prev n : ℕ)
    → prev < 256
    → 0 < n
    → n ≤ 16
    → (set_rate r prev (some n)).1.pic.outs ≡ rate_words prev n r.pic.outs
unfolding set_rate
set_rate-outs r prev n h p q =
    ap (λ w. (w, rtc_port + 1) ∷ (rtc_reg_a, rtc_port) ∷ (rtc_reg_a, rtc_port) ∷ r.pic.outs)
      (register_value prev (16 - n) h (omega arith))

abbrev is_exponent : ℕ → Option ℕ → Bool
is_exponent rate none = true
is_exponent rate (some n) = leb 2 n && leb n 7 && (rate == 2 ^ n)

all_exponents : all_below 256 (λ rate. is_exponent rate (exponent rate)) ≡ true
unfolding all_below
all_exponents = refl

exponent-bounds :
    (rate n : ℕ) → rate < 256 → exponent rate ≡ some n → (2 ≤ n) × (n ≤ 7) × (rate ≡ 2 ^ n)
exponent-bounds rate n h e =
    let t : is_exponent rate (some n) ≡ true =
      ap (is_exponent rate) (sym e)
      ∙ all_below_lem 256 (λ q. is_exponent q (exponent q)) rate all_exponents h in
    (ground arith, ground arith, ground arith)

exponent-pow : (n : ℕ) → 2 ≤ n → n ≤ 7 → exponent (2 ^ n) ≡ some n
exponent-pow zero p q = absurd (omega arith)
exponent-pow (suc zero) p q = absurd (omega arith)
exponent-pow (suc (suc zero)) p q = refl
exponent-pow (suc (suc (suc zero))) p q = refl
exponent-pow (suc (suc (suc (suc zero)))) p q = refl
exponent-pow (suc (suc (suc (suc (suc zero))))) p q = refl
exponent-pow (suc (suc (suc (suc (suc (suc zero)))))) p q = refl
exponent-pow (suc (suc (suc (suc (suc (suc (suc zero))))))) p q = refl
exponent-pow (suc (suc (suc (suc (suc (suc (suc (suc n)))))))) p q = absurd (omega arith)

none-some : {n : ℕ} → ¬ none ≡ some n
none-some h = ground arith

-- rtc_write looks at the first byte of the buffer alone. It takes the powers of two from 4 to 128
-- and nothing else; a refused rate changes nothing. For 2 ^ n it returns 0 and writes 16 - n to
-- the low half of register A, keeping its high half.
pub rtc_write_lem :
    (r : Rtc) (fd : ℤ) (buf : Bytes) (nbytes : ℤ) (prev : ℕ)
    → prev < 256
    → ((rtc_write r fd buf nbytes prev ≡ (failure, r))
        × ((n : ℕ) → 2 ≤ n → n ≤ 7 → byte_at buf 0 ≢ 2 ^ n))
      ⊎ ((n : ℕ) × (2 ≤ n)
          × (n ≤ 7)
          × (byte_at buf 0 ≡ 2 ^ n)
          × ((rtc_write r fd buf nbytes prev).0 ≡ pos 0)
          × ((rtc_write r fd buf nbytes prev).1.pic.outs ≡ rate_words prev n r.pic.outs))
unfolding rtc_write set_rate
rtc_write_lem r fd buf nbytes prev h =
    let rate = byte_at buf 0 in
    let b : rate < 256 = omega arith in
    let e = rate_base-exponent rate b in
    elim (Option-cases (exponent rate)) [
      | inl no_rate ↦ inl (
        rw (e ∙ no_rate) refl,
        λ n p q k. none-some (sym no_rate ∙ ap exponent k ∙ exponent-pow n p q),
      )
      | inr (n, is_rate) ↦
          let (lo, hi, k) = exponent-bounds rate n b is_rate in
          inr (
            n,
            lo,
            hi,
            k,
            rw (e ∙ is_rate) refl,
            rw (e ∙ is_rate)
                (unfold set_rate in (set_rate-outs r prev n h (omega arith) (omega arith))),
          )
    ]
