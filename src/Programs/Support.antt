-- ===== src/Programs/Support.antt =====
-- syscalls/ece391support.c, whose first five functions fish/ece391support.c has as well.
pub mod Kernel
use Prim.Native.String.{String}
use linux_based_os.Prelude.{
  bind, map_some, ℕ, zero, suc, ◌+◌, ◌-◌, ◌*◌, ◌/◌, ◌%◌, ◌^◌, Bool, not, ◌||◌, ltb, leb, ◌==◌,
  if◌then◌else◌, Bytes, byte_at, update, ℤ, pos, sub_ℕ, to_i32, get_elem?, Option, none, some,
}
use linux_based_os.Cstring.{address_space, codes, or_zero}
use linux_based_os.Programs.{Program, ◌>>=◌, ◌>>◌, return, lift, Os}

-- A string literal.
abbrev pub text : String → Bytes
text s j = or_zero (get_elem? (codes s) j)

unfoldable pub ece391_strlen_loop : ℕ → Bytes → ℕ → Option ℕ
ece391_strlen_loop zero s len = none
ece391_strlen_loop (suc fuel) s len =
    let rest = ece391_strlen_loop fuel s (len + 1) in
    if not (0 == byte_at s len) then rest else some len

unfoldable pub ece391_strlen : Bytes → Option ℕ
ece391_strlen s = ece391_strlen_loop address_space s 0

-- The byte is copied before it is looked at.
unfoldable pub ece391_strcpy_loop : ℕ → ℕ → Bytes → Bytes → Option Bytes
ece391_strcpy_loop zero i dst src = none
ece391_strcpy_loop (suc fuel) i dst src =
    let copied = update dst i (byte_at src i) in
    let rest = ece391_strcpy_loop fuel (i + 1) copied src in
    if not (0 == byte_at src i) then rest else some copied

unfoldable pub ece391_strcpy : Bytes → Bytes → Option Bytes
ece391_strcpy dst src = ece391_strcpy_loop address_space 0 dst src

unfoldable pub ece391_strcmp_loop : ℕ → ℕ → Bytes → Bytes → Option ℤ
ece391_strcmp_loop zero i s1 s2 = none
ece391_strcmp_loop (suc fuel) i s1 s2 =
    let rest = ece391_strcmp_loop fuel (i + 1) s1 s2 in
    if byte_at s1 i == byte_at s2 i
    then if byte_at s1 i == 0 then some (pos 0) else rest
    else some (sub_ℕ (byte_at s1 i) (byte_at s2 i))

unfoldable pub ece391_strcmp : Bytes → Bytes → Option ℤ
ece391_strcmp s1 s2 = ece391_strcmp_loop address_space 0 s1 s2

-- `n` counts the places that are left, the one at hand among them.
unfoldable pub ece391_strncmp_loop : ℕ → ℕ → Bytes → Bytes → ℤ
ece391_strncmp_loop zero i s1 s2 = pos 0
ece391_strncmp_loop (suc n) i s1 s2 =
    let rest = ece391_strncmp_loop n (i + 1) s1 s2 in
    if byte_at s1 i == byte_at s2 i
    then if (byte_at s1 i == 0) || (n == 0) then pos 0 else rest
    else sub_ℕ (byte_at s1 i) (byte_at s2 i)

unfoldable pub ece391_strncmp : Bytes → Bytes → ℕ → ℤ
ece391_strncmp s1 s2 n = if 0 == n then pos 0 else ece391_strncmp_loop n 0 s1 s2

-- A round moves both ends by one, so `left` = `len` rounds are more than enough.
unfoldable pub ece391_strrev_loop : ℕ → ℕ → ℕ → Bytes → Bytes
ece391_strrev_loop zero beg end s = s
ece391_strrev_loop (suc left) beg end s =
    let tmp = byte_at s end in
    let moved = update s end (byte_at s beg) in
    let swapped = update moved beg tmp in
    let rest = ece391_strrev_loop left (beg + 1) (end - 1) swapped in
    if ltb beg end then rest else s

-- `end` is a signed number in the source: it is at most 0 for a string of at most one character.
unfoldable pub ece391_strrev : Bytes → Option Bytes
ece391_strrev s =
    map_some (λ len. if leb len 1 then s else ece391_strrev_loop len 0 (len - 1) s)
      (ece391_strlen s)

-- The digit that stands for `i`; the last place of the array is the NUL of its literal.
unfoldable pub ece391_lookup : ℕ → ℕ
ece391_lookup i = text "0123456789ABCDEFGHIJKLMNOPQRSTUVWXYZ" i

-- `at` is where `newbuf` points to. A value falls in each round, so `value` rounds are enough for
-- a radix from 2 on; `none` where the rounds run out.
unfoldable pub ece391_itoa_loop : ℕ → ℕ → ℕ → ℕ → Bytes → Option (ℕ × Bytes)
ece391_itoa_loop zero newval radix at buf = if ltb 0 newval then none else some (at, buf)
ece391_itoa_loop (suc left) newval radix at buf =
    let digit = update buf at (ece391_lookup (newval % radix)) in
    let rest = ece391_itoa_loop left (newval / radix) radix (at + 1) digit in
    if ltb 0 newval then rest else some (at, buf)

unfoldable pub ece391_itoa : ℕ → Bytes → ℕ → Option Bytes
ece391_itoa value buf radix =
    if value == 0
    then some (update (update buf 0 b'0') 1 0)
    else bind (ece391_itoa_loop value value radix 0 buf)
        λ digits. ece391_strrev (update digits.1 digits.0 0)

-- The result of the write is not looked at.
unfoldable pub ece391_fdputs : {S : Type 0} → Os S → ℤ → Bytes → Program S (Unit {0})
ece391_fdputs os fd s = do
  len ← lift (ece391_strlen s)
  written ← os.ece391_write fd s (to_i32 len)
  return tt
