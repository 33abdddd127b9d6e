-- ===== src/Cstring/Copy.antt =====
-- strncpy and strcpy of student-distrib/lib.c, place by place.
use linux_based_os.Prelude.{
  ℕ, zero, suc, ◌+◌, ◌^◌, ◌≤◌, ◌<◌, ◌≡◌, ◌≢◌, some, arith, Bytes, byte_at, update, ltb, leb, ◌==◌,
  ◌&&◌, if◌then◌else◌, Bool-cases, inl, inr, ◌⊎◌, min,
}
use linux_based_os.Cstring.{strncpy, strncpy_loop, zero_fill, strcpy, strcpy_loop, address_space}
use linux_based_os.Cstring.Scan.{HasLength}

pub zero_fill_lem :
    (left i : ℕ) (dest : Bytes) (j : ℕ)
    → zero_fill left i dest j ≡ (if leb i j && ltb j (i + left) then 0 else dest j)
unfolding zero_fill
zero_fill_lem zero i dest j = ground arith
zero_fill_lem (suc left) i dest j = ground (arith, zero_fill_lem left (i + 1) (update dest i 0) j)

-- The places of `src` from `i` on that come before a NUL, at most `left` of them.
unfoldable pub nul_before : ℕ → ℕ → Bytes → ℕ
nul_before zero i src = i
nul_before (suc left) i src =
    let rest = nul_before left (i + 1) src in if byte_at src i == 0 then i else rest

le-nul_before : (left i : ℕ) (src : Bytes) → i ≤ nul_before left i src
unfolding nul_before
le-nul_before zero i src = omega arith
le-nul_before (suc left) i src = ground (arith, le-nul_before left (i + 1) src)

nul_before-le : (left i : ℕ) (src : Bytes) → nul_before left i src ≤ i + left
unfolding nul_before
nul_before-le zero i src = omega arith
nul_before-le (suc left) i src = ground (arith, nul_before-le left (i + 1) src)

strncpy_loop_lem :
    (left i : ℕ) (dest src : Bytes) (j : ℕ)
    → strncpy_loop left i dest src j ≡ (
        if leb i j && ltb j (i + left)
        then if ltb j (nul_before left i src) then byte_at src j else 0
        else dest j)
unfolding strncpy_loop nul_before
strncpy_loop_lem zero i dest src j = ground arith
strncpy_loop_lem (suc left) i dest src j = ground (
  arith,
  zero_fill_lem (suc left) i dest j,
  le-nul_before left (i + 1) src,
  strncpy_loop_lem left (i + 1) (update dest i (byte_at src i)) src j,
)

-- strncpy writes exactly the first `n` places: the characters of `src` before its first NUL, then
-- zeros. It leaves every other place as it was.
pub strncpy_lem :
    (dest src : Bytes) (n j : ℕ)
    → strncpy dest src n j
      ≡ (if ltb j n then if ltb j (nul_before n 0 src) then byte_at src j else 0 else dest j)
unfolding strncpy
strncpy_lem dest src n j = ground (arith, strncpy_loop_lem n 0 dest src j)

pub nul_before-eq :
    (left i n : ℕ) (src : Bytes)
    → HasLength src n
    → i ≤ n
    → nul_before left i src ≡ min n (i + left)
unfolding nul_before
nul_before-eq zero i n src h p = omega arith
nul_before-eq (suc left) i n src h p =
    ground (arith, h.ends, h.before i, nul_before-eq left (i + 1) n src h)

-- Copying a whole string by its own length.
pub strncpy_all :
    (dest src : Bytes) (n j : ℕ)
    → HasLength src n
    → strncpy dest src n j ≡ (if ltb j n then byte_at src j else dest j)
strncpy_all dest src n j h = ground (arith, strncpy_lem dest src n j, nul_before-eq n 0 n src h)

nul_before-all :
    (left i : ℕ) (src : Bytes)
    → ((j : ℕ) → i ≤ j → j < i + left → byte_at src j ≢ 0)
    → nul_before left i src ≡ i + left
unfolding nul_before
nul_before-all zero i src h = omega arith
nul_before-all (suc left) i src h =
    ground (arith, h i, nul_before-all left (i + 1) src (λ j p q. h j (omega arith) (omega arith)))

-- Copying characters none of which is a NUL.
pub strncpy_visible :
    (dest src : Bytes) (n j : ℕ)
    → ((i : ℕ) → i < n → byte_at src i ≢ 0)
    → strncpy dest src n j ≡ (if ltb j n then byte_at src j else dest j)
strncpy_visible dest src n j h =
    ground (arith, strncpy_lem dest src n j, nul_before-all n 0 src (λ i p q. h i (omega arith)))

-- What the loop of strcpy leaves, started at place `i`.
record IsCopied (i n : ℕ) (dest src out : Bytes) : Type 0 where
  inside : (j : ℕ) → i ≤ j → j < n → out j ≡ byte_at src j
  ends : out n ≡ 0
  outside : (j : ℕ) → (j < i) ⊎ (n < j) → out j ≡ dest j

strcpy_loop_lem :
    (fuel i n : ℕ) (dest src : Bytes)
    → HasLength src n
    → i ≤ n
    → n < i + fuel
    → (out : Bytes) × (strcpy_loop fuel i dest src ≡ some out) × IsCopied i n dest src out
unfolding strcpy_loop
strcpy_loop_lem zero i n dest src h lo hi = absurd (omega arith)
strcpy_loop_lem (suc fuel) i n dest src h lo hi = elim (Bool-cases (byte_at src i == 0)) [
  | inl stop ↦ (
    update dest i 0,
    rw stop,
    record {
      inside = λ j p q. absurd (ground (arith, h.before i));
      ends = ground (arith, h.before i);
      outside = λ j p. ground (arith, h.before i);
    },
  )
  | inr more ↦
      let below : i + 1 ≤ n = ground (arith, h.ends) in
      let (out, e, c) =
        strcpy_loop_lem fuel (i + 1) n (update dest i (byte_at src i)) src h below (omega arith) in
      (
        out,
        rw more e,
        record {
          inside = λ j p q. ground (arith, c.inside j, c.outside j);
          ends = c.ends;
          outside = λ j p. ground (arith, c.outside j);
        },
      )
]

-- A string that fits into `size` places is copied to them.
pub strcpy_loop_fits :
    (size : ℕ) (dest src : Bytes) (n : ℕ)
    → HasLength src n
    → n < size
    → (out : Bytes) × (strcpy_loop size 0 dest src ≡ some out)
      × ((j : ℕ) → j < n → out j ≡ byte_at src j)
      × (out n ≡ 0)
      × ((j : ℕ) → n < j → out j ≡ dest j)
strcpy_loop_fits size dest src n h fits =
    let (out, e, c) = strcpy_loop_lem size 0 n dest src h (omega arith) (omega arith) in
    (out, e, λ j p. c.inside j (omega arith) p, c.ends, λ j p. c.outside j (inr p))

-- strcpy returns; it copies the string before its first NUL, writes a NUL behind it, and changes
-- nothing further on.
pub strcpy_lem :
    (dest src : Bytes) (n : ℕ)
    → HasLength src n
    → n < 2 ^ 32
    → (out : Bytes) × (strcpy dest src ≡ some out)
      × ((j : ℕ) → j < n → out j ≡ byte_at src j)
      × (out n ≡ 0)
      × ((j : ℕ) → n < j → out j ≡ dest j)
unfolding strcpy
strcpy_lem dest src n h fits = strcpy_loop_fits address_space dest src n h (omega arith)
