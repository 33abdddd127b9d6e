-- ===== src/Filesys/Data/Flags.antt =====
-- The index of a data block in the flags of a descriptor (student-distrib/filesys.h).
use linux_based_os.Prelude.{ℕ, ◌+◌, ◌*◌, ◌/◌, ◌%◌, ◌^◌, ◌<◌, ◌≡◌, arith, bit_and, bit_or}
use linux_based_os.Prelude.Bits.{
  bit_and_split, bit_or_split, bit_and_ones, bit_and-zero, bit_or-zero, zero-bit_or,
}
use linux_based_os.Filesys.Data.{flags_idx, set_flags_idx}

and_low_byte : (f : ℕ) → f < 2 ^ 20 → bit_and f 0xFF ≡ f % 2 ^ 8
and_low_byte f h = ground (
  arith,
  bit_and_split 8 (f / 2 ^ 8) 0 (f % 2 ^ 8) 0xFF (omega arith) (omega arith),
  bit_and-zero (f / 2 ^ 8),
  bit_and_ones 8 (f % 2 ^ 8) (omega arith),
)

and_clear : (f : ℕ) → f < 2 ^ 32 → bit_and f 0xFFF000FF ≡ f / 2 ^ 20 * 2 ^ 20 + f % 2 ^ 8
and_clear f h = ground (
  arith,
  bit_and_split 20 (f / 2 ^ 20) 0xFFF (f % 2 ^ 20) 0xFF (omega arith) (omega arith),
  bit_and_ones 12 (f / 2 ^ 20) (omega arith),
  and_low_byte (f % 2 ^ 20) (omega arith),
)

and_idx : (f : ℕ) → bit_and f 0x000FFF00 ≡ f / 2 ^ 8 % 2 ^ 12 * 2 ^ 8
and_idx f = ground (
  arith,
  bit_and_split 20 (f / 2 ^ 20) 0 (f % 2 ^ 20) 0xFFF00 (omega arith) (omega arith),
  bit_and-zero (f / 2 ^ 20),
  bit_and_split 8 (f / 2 ^ 8 % 2 ^ 12) 0xFFF (f % 2 ^ 8) 0 (omega arith) (omega arith),
  bit_and-zero (f % 2 ^ 8),
  bit_and_ones 12 (f / 2 ^ 8 % 2 ^ 12) (omega arith),
)

or_idx :
    (hi low idx : ℕ)
    → low < 2 ^ 8
    → idx < 2 ^ 12
    → bit_or (hi * 2 ^ 20 + low) (idx * 2 ^ 8) ≡ hi * 2 ^ 20 + idx * 2 ^ 8 + low
or_idx hi low idx p q = ground (
  arith,
  bit_or_split 20 hi 0 low (idx * 2 ^ 8) (omega arith) (omega arith),
  bit_or-zero hi,
  bit_or_split 8 0 idx low 0 (omega arith) (omega arith),
  zero-bit_or idx,
  bit_or-zero low,
)

pub flags_idx_lem : (f : ℕ) → flags_idx f ≡ f / 2 ^ 8 % 2 ^ 12
unfolding flags_idx
flags_idx_lem f = omega (arith, and_idx f)

pub set_flags_idx_lem :
    (f idx : ℕ)
    → f < 2 ^ 32
    → idx < 2 ^ 12
    → set_flags_idx f idx ≡ f / 2 ^ 20 * 2 ^ 20 + idx * 2 ^ 8 + f % 2 ^ 8
unfolding set_flags_idx
set_flags_idx_lem f idx p q =
    ground (arith, and_clear f p, or_idx (f / 2 ^ 20) (f % 2 ^ 8) idx (omega arith) q)
