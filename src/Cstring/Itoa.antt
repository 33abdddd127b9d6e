-- ===== src/Cstring/Itoa.antt =====
-- itoa of student-distrib/lib.c: what it prints reads back as the value.
use linux_based_os.Prelude.{
  ℕ, zero, suc, ◌+◌, ◌-◌, ◌*◌, ◌/◌, ◌%◌, ◌^◌, ◌<◌, ◌≤◌, ◌≡◌, ◌≢◌, ◌⊎◌, refl, ap, ap₂, ◌∙◌, sym,
  some, arith, Bytes, update_self, update_ne, byte_at, update, ltb, ◌==◌, ◌&&◌, if◌then◌else◌, Bool,
  true, Bool-cases, inl, inr, ==→eq, ne→==, tests,
}
use native.Mathlib.Nat.{mod-lt, div-add-mod, div-lt_self, le_refl}
use linux_based_os.Cstring.{lookup, itoa, itoa_loop, strrev}
use linux_based_os.Cstring.Scan.{HasLength}
use linux_based_os.Cstring.Reverse.{strrev_lem}

-- The value of a digit: `0` to `9`, then `A` to `Z`.
unfoldable pub digit : ℕ → ℕ
digit c = if ltb c 58 then c - 48 else c - 55

-- The first `n` characters, read in the given radix, the highest place first.
unfoldable pub number : ℕ → Bytes → ℕ → ℕ
number radix s zero = 0
number radix s (suc n) = number radix s n * radix + digit (byte_at s n)

-- `n` characters from place `i` on, the lowest place first.
reversed : ℕ → Bytes → ℕ → ℕ → ℕ
reversed radix s i zero = 0
reversed radix s i (suc n) = digit (byte_at s i) + radix * reversed radix s (i + 1) n

check_digits : ℕ → Bool
check_digits zero = true
check_digits (suc n) =
    (digit (byte_at (λ _. lookup n) 0) == n)
    && ltb 0 (lookup n)
    && ltb (lookup n) 256
    && check_digits n

check_digits_sound :
    (n i : ℕ)
    → check_digits n ≡ true
    → i < n
    → (digit (lookup i % 256) ≡ i) × (0 < lookup i) × (lookup i < 256)
unfolding check_digits
check_digits_sound zero i h p = absurd (omega arith)
check_digits_sound (suc n) i h p = elim (Bool-cases (i == n)) [
  | inl e ↦ rw (==→eq _ _ e) (ground arith)
  | inr ne ↦ check_digits_sound n i (ground arith) (omega tests)
]

all_digits : check_digits 36 ≡ true
unfolding check_digits digit lookup
all_digits = refl

digit-lookup : (i : ℕ) → i < 36 → (digit (lookup i % 256) ≡ i) × (0 < lookup i) × (lookup i < 256)
digit-lookup i h = check_digits_sound 36 i all_digits h

reversed_ext :
    (radix : ℕ) (s t : Bytes) (i n : ℕ)
    → ((j : ℕ) → i ≤ j → j < i + n → byte_at s j ≡ byte_at t j)
    → reversed radix s i n ≡ reversed radix t i n
unfolding reversed
reversed_ext radix s t i zero h = refl
reversed_ext radix s t i (suc n) h =
    ap₂ (λ a b. digit a + radix * b) (h i (omega arith) (omega arith))
      (reversed_ext radix s t (i + 1) n (λ j p q. h j (omega arith) (omega arith)))

number_of_reversed :
    (radix : ℕ) (s t : Bytes) (i n : ℕ)
    → ((j : ℕ) → j < n → byte_at t j ≡ byte_at s (i + (n - 1 - j)))
    → number radix t n ≡ reversed radix s i n
unfolding number reversed
number_of_reversed radix s t i zero h = refl
number_of_reversed radix s t i (suc n) h = omega (
  arith,
  ap (λ (x : ℕ). x * radix)
      (number_of_reversed radix s t (i + 1) n
        (λ j p. h j (omega arith) ∙ ap (byte_at s) (omega arith))),
  ap digit (h n (omega arith) ∙ ap (byte_at s) at_i),
)
  where
    at_i : i + (suc n - 1 - n) ≡ i
    at_i = omega arith

-- What the digit loop leaves, started at place `k` with `v` left to print.
record IsPrinted (radix v k : ℕ) (buf : Bytes) (n : ℕ) (out : Bytes) : Type 0 where
  places : (v ≡ 0) ⊎ (0 < n)
  value : reversed radix out k n ≡ v
  visible : (j : ℕ) → k ≤ j → j < k + n → byte_at out j ≢ 0
  outside : (j : ℕ) → (j < k) ⊎ (k + n ≤ j) → byte_at out j ≡ byte_at buf j

module _ (radix k q r v : ℕ) (buf : Bytes) (m : ℕ) (out : Bytes) (split : radix * q + r ≡ v)
    (d : (digit (lookup r % 256) ≡ r) × (0 < lookup r) × (lookup r < 256))
    (c : IsPrinted radix q (k + 1) (update buf k (lookup r)) m out) where
  at_k : byte_at out k ≡ lookup r % 256
  at_k = c.outside k (inl (omega arith)) ∙ ap (λ x. x % 256) (update_self buf k (lookup r))

  IsPrinted-suc : IsPrinted radix v k buf (suc m) out
  unfolding reversed
  IsPrinted-suc = record {
    places = inr (omega arith);
    value = omega (arith, ap digit at_k, ap (λ (x : ℕ). radix * x) c.value, d.0);
    visible = λ j p q'. ground (arith, c.visible j, at_k);
    outside = λ j p. ground (arith, c.outside j, update_ne buf k (lookup r) j);
  }

itoa_loop_zero : (fuel radix k : ℕ) (buf : Bytes) → itoa_loop fuel 0 radix k buf ≡ some (k + 0, buf)
unfolding itoa_loop
itoa_loop_zero zero radix k buf = ground arith
itoa_loop_zero (suc fuel) radix k buf = ground arith

itoa_loop_lem :
    (fuel v radix k : ℕ) (buf : Bytes)
    → 1 < radix
    → radix ≤ 36
    → v ≤ fuel
    → (n : ℕ) × (out : Bytes) × (itoa_loop fuel v radix k buf ≡ some (k + n, out))
      × (n ≤ v)
      × IsPrinted radix v k buf n out
unfolding itoa_loop reversed
itoa_loop_lem fuel zero radix k buf lo hi h = (
  0,
  buf,
  itoa_loop_zero fuel radix k buf,
  omega arith,
  record {
    places = inl refl;
    value = refl;
    visible = λ j p q. absurd (omega arith);
    outside = λ j p. refl;
  },
)
itoa_loop_lem zero (suc v) radix k buf lo hi h = absurd (omega arith)
itoa_loop_lem (suc fuel) (suc v) radix k buf lo hi h =
    let falls : suc v / radix ≤ v =
      omega (arith, div-lt_self {n = suc v} {k = radix} (omega arith) lo) in
    let small : suc v % radix < radix = mod-lt (suc v) (omega arith) in
    let d = digit-lookup (suc v % radix) (omega arith) in
    let (m, out, e, le, c) =
      itoa_loop_lem fuel (suc v / radix) radix (k + 1) (update buf k (lookup (suc v % radix))) lo hi
        (omega arith) in
    (
      suc m,
      out,
      rw e (ground arith),
      omega arith,
      IsPrinted-suc radix k (suc v / radix) (suc v % radix) (suc v) buf m out
          (div-add-mod (suc v) radix) d c,
    )

-- What strrev makes of the printed digits.
IsPrinted-strrev :
    (radix v n : ℕ) (buf out : Bytes)
    → IsPrinted radix v 0 buf n out
    → n < 2 ^ 32
    → (t : Bytes) × (strrev (update out n 0) ≡ some t) × HasLength t n × (number radix t n ≡ v)
IsPrinted-strrev radix v n buf out c fits =
    let visible : (j : ℕ) → j < n → byte_at (update out n 0) j ≢ 0 =
      λ j p. ground (arith, c.visible j, update_ne out n 0 j) in
    let ended : byte_at (update out n 0) n ≡ 0 = ap (λ x. x % 256) (update_self out n 0) in
    let (t, e, inside, outside) =
      strrev_lem (update out n 0) n (record { ends = ended; before = visible }) fits in
    (
      t,
      e,
      record {
        ends = outside n (le_refl n) ∙ ended;
        before = λ j p z. visible (n - 1 - j) (omega arith) (sym (inside j p) ∙ z);
      },
      number_of_reversed radix (update out n 0) t 0 n
            (λ j p. inside j p ∙ ap (byte_at (update out n 0)) (omega arith))
          ∙ reversed_ext radix (update out n 0) out 0 n
              (λ j p q. ap (λ x. x % 256) (update_ne out n 0 j (omega arith)))
          ∙ c.value,
    )

-- itoa of a value that is not 0, from what its digit loop leaves.
itoa_of_digits :
    (v radix k : ℕ) (buf digits : Bytes)
    → v ≢ 0
    → itoa_loop v v radix 0 buf ≡ some (0 + k, digits)
    → itoa v buf radix ≡ strrev (update digits k 0)
unfolding itoa
itoa_of_digits v radix k buf digits ne e =
    rw (ne→== v 0 ne, e) (ap (λ i. strrev (update digits i 0)) (omega arith))

-- itoa returns, and what it leaves is a string, not empty and of `value` + 1 characters at most,
-- that reads back as `value`.
pub itoa_lem :
    (value : ℕ) (buf : Bytes) (radix : ℕ)
    → value < 2 ^ 32
    → 1 < radix
    → radix ≤ 36
    → (n : ℕ) × (out : Bytes) × (itoa value buf radix ≡ some out)
      × HasLength out n
      × (0 < n)
      × (n ≤ value + 1)
      × (number radix out n ≡ value)
unfolding itoa number digit
itoa_lem zero buf radix fits lo hi = (
  1,
  update (update buf 0 48) 1 0,
  refl,
  record { ends = refl; before = λ j p. ground arith },
  omega arith,
  omega arith,
  omega arith,
)
itoa_lem (suc v) buf radix fits lo hi =
    let (n, out, e, le, c) = itoa_loop_lem (suc v) (suc v) radix 0 buf lo hi (le_refl _) in
    let (t, e', len, same) = IsPrinted-strrev radix (suc v) n buf out c (omega arith) in
    (
      n,
      t,
      itoa_of_digits (suc v) radix n buf out (omega arith) e ∙ e',
      len,
      omega arith,
      omega arith,
      same,
    )
