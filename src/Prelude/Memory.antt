-- ===== src/Prelude/Memory.antt =====
-- Memory as a function from addresses to bytes, and the little-endian words in it.
use Prim.Native.Nat.{ℕ, ◌+◌, ◌*◌, ◌/◌, ◌%◌, ◌^◌, ◌<◌}
use mathlib.Core.Path.{◌≡◌}
use mathlib.Core.Logic.{◌≢◌}
use native.Mathlib.Omega.{arith}
use linux_based_os.Prelude.Tests.{◌==◌, if◌then◌else◌}

-- The memory that a pointer leads to: the cell at each distance from it.
abbrev pub Bytes : Type 0
Bytes = ℕ → ℕ

-- A cell holds a byte.
abbrev pub byte_at : Bytes → ℕ → ℕ
byte_at m i = m i % 2 ^ 8

abbrev pub update : Bytes → ℕ → ℕ → Bytes
update m i v j = if j == i then v else m j

abbrev pub shift : Bytes → ℕ → Bytes
shift m d i = m (d + i)

unfoldable pub word : Bytes → ℕ → ℕ
word m i =
    byte_at m i
    + byte_at m (i + 1) * 2 ^ 8
    + byte_at m (i + 2) * 2 ^ 16
    + byte_at m (i + 3) * 2 ^ 24

unfoldable pub set_word : Bytes → ℕ → ℕ → Bytes
set_word m i v =
    update
      (update (update (update m i (v % 2 ^ 8)) (i + 1) (v / 2 ^ 8 % 2 ^ 8)) (i + 2)
        (v / 2 ^ 16 % 2 ^ 8))
      (i + 3) (v / 2 ^ 24 % 2 ^ 8)

pub word-lt : (m : Bytes) (i : ℕ) → word m i < 2 ^ 32
unfolding word
word-lt m i = omega arith

pub update_self : (m : Bytes) (i v : ℕ) → update m i v i ≡ v
update_self m i v = ground arith

pub update_ne : (m : Bytes) (i v j : ℕ) → j ≢ i → update m i v j ≡ m j
update_ne m i v j h = ground arith

pub word-set_word_self : (m : Bytes) (i v : ℕ) → v < 2 ^ 32 → word (set_word m i v) i ≡ v
unfolding word set_word
word-set_word_self m i v h = ground arith
