-- ===== src/Cstring.antt =====
-- The string routines of student-distrib/lib.c: strlen, strncmp, strcpy, strncpy, strrev and itoa.
-- A pointer is the memory that it leads to. `none` is a call that never returns.
pub mod Scan
pub mod Copy
pub mod Compare
pub mod Reverse
pub mod Itoa
mod Tests
use Prim.Native.Char.{code}
use Prim.Native.String.{String}
use linux_based_os.Prelude.{
  map_some, ℕ, zero, suc, ◌+◌, ◌-◌, ◌/◌, ◌%◌, ◌^◌, Bool, true, false, not, ◌||◌, Option, none, some,
  List, [], ◌∷◌, ℤ, pos, sub_ℕ, ltb, ◌==◌, if◌then◌else◌, Bytes, byte_at, update, get_elem?,
}

-- The number of byte addresses: past it `len` wraps, and the scan goes round for ever.
unfoldable pub address_space : ℕ
address_space = 2 ^ 32

unfoldable pub strlen_loop : ℕ → Bytes → ℕ → Option ℕ
strlen_loop zero s len = none
strlen_loop (suc fuel) s len =
    let rest = strlen_loop fuel s (len + 1) in if byte_at s len == 0 then some len else rest

unfoldable pub strlen : Bytes → Option ℕ
unfolding strlen_loop address_space
strlen s = strlen_loop address_space s 0

-- An `int8_t` with 2 ^ 8 added, so that it is no negative number.
abbrev pub biased : ℕ → ℕ
biased c = if ltb c 128 then c + 256 else c

unfoldable pub strncmp_loop : ℕ → ℕ → Bytes → Bytes → ℤ
strncmp_loop zero i s1 s2 = pos 0
strncmp_loop (suc left) i s1 s2 =
    let rest = strncmp_loop left (i + 1) s1 s2 in
    if not (byte_at s1 i == byte_at s2 i) || (byte_at s1 i == 0)
    then sub_ℕ (biased (byte_at s1 i)) (biased (byte_at s2 i))
    else rest

unfoldable pub strncmp : Bytes → Bytes → ℕ → ℤ
unfolding strncmp_loop
strncmp s1 s2 n = strncmp_loop n 0 s1 s2

unfoldable pub strcpy_loop : ℕ → ℕ → Bytes → Bytes → Option Bytes
strcpy_loop zero i dest src = none
strcpy_loop (suc fuel) i dest src =
    let rest = strcpy_loop fuel (i + 1) (update dest i (byte_at src i)) src in
    if byte_at src i == 0 then some (update dest i 0) else rest

unfoldable pub strcpy : Bytes → Bytes → Option Bytes
unfolding strcpy_loop address_space
strcpy dest src = strcpy_loop address_space 0 dest src

-- The second loop of strncpy, with the number of rounds left.
unfoldable pub zero_fill : ℕ → ℕ → Bytes → Bytes
zero_fill zero i dest = dest
zero_fill (suc left) i dest = zero_fill left (i + 1) (update dest i 0)

unfoldable pub strncpy_loop : ℕ → ℕ → Bytes → Bytes → Bytes
unfolding zero_fill
strncpy_loop zero i dest src = dest
strncpy_loop (suc left) i dest src =
    let rest = strncpy_loop left (i + 1) (update dest i (byte_at src i)) src in
    if byte_at src i == 0 then zero_fill (suc left) i dest else rest

unfoldable pub strncpy : Bytes → Bytes → ℕ → Bytes
unfolding strncpy_loop
strncpy dest src n = strncpy_loop n 0 dest src

-- `end` is -1 for an empty string in the source; 0 stops the loop as well.
unfoldable pub strrev_loop : ℕ → ℕ → ℕ → Bytes → Bytes
strrev_loop zero beg end s = s
strrev_loop (suc fuel) beg end s =
    let tmp = byte_at s end in
    let rest =
      strrev_loop fuel (beg + 1) (end - 1) (update (update s end (byte_at s beg)) beg tmp) in
    if ltb beg end then rest else s

-- A round takes one place from either end, so `len` rounds are enough.
unfoldable pub strrev : Bytes → Option Bytes
unfolding strrev_loop strlen
strrev s = map_some (λ len. strrev_loop len 0 (len - 1) s) (strlen s)

abbrev pub codes : String → List ℕ
codes String.[] = []
codes (String.◌∷◌ c s) = code c ∷ codes s

abbrev pub lookup_table : List ℕ
lookup_table = codes "0123456789ABCDEFGHIJKLMNOPQRSTUVWXYZ"

abbrev pub or_zero : Option ℕ → ℕ
or_zero none = 0
or_zero (some c) = c

-- The entry 36 is the terminator of the literal.
unfoldable pub lookup : ℕ → ℕ
lookup i = or_zero (get_elem? lookup_table i)

-- The digits from the lowest place up, with the place that comes next. `newval` falls in each
-- round, so `value` rounds are enough; a radix below 2 runs out of them.
unfoldable pub itoa_loop : ℕ → ℕ → ℕ → ℕ → Bytes → Option (ℕ × Bytes)
unfolding lookup
itoa_loop zero newval radix k buf = if newval == 0 then some (k, buf) else none
itoa_loop (suc fuel) newval radix k buf =
    let rest =
      itoa_loop fuel (newval / radix) radix (k + 1) (update buf k (lookup (newval % radix))) in
    if newval == 0 then some (k, buf) else rest

unfoldable pub itoa : ℕ → Bytes → ℕ → Option Bytes
itoa value buf radix =
    if value == 0
    then some (update (update buf 0 b'0') 1 0)
    else elim (itoa_loop value value radix 0 buf) [
      | none ↦ none
      | some (k, digits) ↦ strrev (update digits k 0)
    ]
