-- ===== src/Filesys/File/Flags.antt =====
-- The in-use bit and the type in the flags of a descriptor (student-distrib/filesys.h).
use linux_based_os.Prelude.{ℕ, ◌*◌, ◌/◌, ◌%◌, ◌≡◌, arith, bit_and, not, ◌==◌}
use linux_based_os.Prelude.Bits.{bit_and_split, bit_and_ones, bit_and-zero}
use linux_based_os.Filesys.File.{flags_type, is_in_use}

pub and_one : (f : ℕ) → bit_and f 1 ≡ f % 2
and_one f = ground (
  arith,
  bit_and_split 1 (f / 2) 0 (f % 2) 1 (omega arith) (omega arith),
  bit_and-zero (f / 2),
  bit_and_ones 1 (f % 2) (omega arith),
)

pub and_six : (f : ℕ) → bit_and f 6 ≡ f / 2 % 4 * 2
and_six f = ground (
  arith,
  bit_and_split 3 (f / 8) 0 (f % 8) 6 (omega arith) (omega arith),
  bit_and-zero (f / 8),
  bit_and_split 1 (f / 2 % 4) 3 (f % 2) 0 (omega arith) (omega arith),
  bit_and-zero (f % 2),
  bit_and_ones 2 (f / 2 % 4) (omega arith),
)

pub flags_type_lem : (f : ℕ) → flags_type f ≡ f / 2 % 4
unfolding flags_type
flags_type_lem f = omega (arith, and_six f)

pub is_in_use_lem : (f : ℕ) → is_in_use f ≡ not (f % 2 == 0)
unfolding is_in_use
is_in_use_lem f = ground (arith, and_one f)
