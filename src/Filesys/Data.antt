-- ===== src/Filesys/Data.antt =====
-- read_data of student-distrib/filesys.c.
pub mod Flags
pub mod Contents
pub mod Loop
pub mod Read
pub mod Step
pub mod Program
use linux_based_os.Prelude.{
  bind, ℕ, zero, suc, ◌+◌, ◌-◌, ◌*◌, ◌/◌, ◌%◌, ◌^◌, ℤ, pos, negsuc, failure, to_i32, is_minus_one,
  Option, none, some, ltb, leb, ◌==◌, ◌&&◌, not, if◌then◌else◌, Bool, true, false, Bytes, byte_at,
  update, bit_and, bit_or, set,
}
use linux_based_os.Pcb.{FileDesc, FileArray, desc, index}
use linux_based_os.Filesys.{Filesys, load, inode_word, block}

-- The masks of a descriptor's flags.
abbrev pub use_mask : ℕ
use_mask = 0x00000001

abbrev pub type_mask : ℕ
type_mask = 0x00000006

abbrev pub i_idx_mask : ℕ
i_idx_mask = 0x000FFF00

abbrev pub i_idx_clear : ℕ
i_idx_clear = 0xFFF000FF

-- (flags & I_IDX_MASK) >> I_IDX_SHIFT
unfoldable pub flags_idx : ℕ → ℕ
flags_idx flags = bit_and flags i_idx_mask / 2 ^ 8

-- (flags & I_IDX_CLEAR) | (idx << I_IDX_SHIFT)
unfoldable pub set_flags_idx : ℕ → ℕ → ℕ
set_flags_idx flags idx = bit_or (bit_and flags i_idx_clear) (idx * 2 ^ 8 % 2 ^ 32)

-- A `uint8_t*` into the image: the address as an offset from `filesys_ptr`.
unfoldable pub load_byte : Filesys → ℕ → ℕ
load_byte fs offset = byte_at fs.mem ((fs.filesys_ptr + offset) % 2 ^ 32)

-- Where the copying stands in the inode.
pub record Place : Type 0 where
  pub inode_idx : ℕ
  pub dnode_num : ℕ
  pub byte_ptr : ℕ

-- To the start of the data block that `idx` names.
unfoldable pub enter : Filesys → ℕ → ℕ → Place
enter fs inode idx = record {
  inode_idx = idx;
  dnode_num = inode_word fs inode idx;
  byte_ptr = block fs (inode_word fs inode idx);
}

-- The next index of the inode, or `none` at its end.
unfoldable pub next_block : Filesys → ℕ → Place → Option Place
next_block fs inode p =
    if leb 1024 (p.inode_idx + 1) then none else some (enter fs inode (p.inode_idx + 1))

-- The inner loop, past block numbers that are not valid. An inode has 1024 words, so 1024 rounds
-- are enough.
unfoldable pub skip_invalid : ℕ → Filesys → ℕ → Place → Option Place
skip_invalid zero fs inode p = some p
skip_invalid (suc rounds) fs inode p =
    if leb fs.bblock.n_data_blocks p.dnode_num
    then bind (next_block fs inode p) (skip_invalid rounds fs inode)
    else some p

-- What stands before the copy of a byte: the step over a block boundary, and the inner loop.
unfoldable pub advance : Filesys → ℕ → ℕ → Place → Option Place
advance fs inode offset p =
    bind (if not (offset == 0) && (offset % 4096 == 0) then next_block fs inode p else some p)
      (skip_invalid 1024 fs inode)

-- How the copying loop ends: early, or with all bytes copied.
pub record Copied : Type 0 where
  pub early : Bool
  pub count : ℕ
  pub buf : Bytes
  pub inode_idx : ℕ

abbrev pub stop_early : ℕ → ℕ → Bytes → Copied
stop_early it idx buf = record { early = true; count = it; buf = update buf it 0; inode_idx = idx }

unfoldable pub copy_loop : ℕ → Filesys → ℕ → ℕ → ℕ → ℕ → Place → Bytes → Copied
copy_loop zero fs inode size it offset p buf = record {
  early = false;
  count = it;
  buf = buf;
  inode_idx = p.inode_idx;
}
copy_loop (suc left) fs inode size it offset p buf =
    if leb size offset then stop_early it p.inode_idx buf else elim (advance fs inode offset p) [
      | none ↦ stop_early it p.inode_idx buf
      | some p' ↦
          copy_loop left fs inode size (it + 1) (offset + 1)
            (record p' { byte_ptr = p'.byte_ptr + 1 }) (update buf it (load_byte fs p'.byte_ptr))
    ]

-- What read_data leaves: its result, the buffer and the file array.
pub record DataRead : Type 0 where
  pub ret : ℤ
  pub buf : Bytes
  pub files : FileArray

-- `fd` is -1 in the calls of sys_execute; then the index starts at 0.
unfoldable pub start_idx : FileArray → ℤ → ℕ
start_idx files fd = if is_minus_one fd then 0 else flags_idx (desc files (index fd)).flags

-- The update of the index in the flags after a whole copy.
unfoldable pub save_idx : FileArray → ℤ → ℕ → FileArray
save_idx files fd idx =
    if is_minus_one fd
    then files
    else set files (index fd)
        (record (desc files (index fd)) { flags = set_flags_idx (desc files (index fd)).flags idx })

unfoldable pub finish_read : FileArray → ℤ → ℕ → Copied → DataRead
finish_read files fd length c =
    if c.early
    then record { ret = to_i32 c.count; buf = c.buf; files = files }
    else record { ret = to_i32 length; buf = c.buf; files = save_idx files fd c.inode_idx }

abbrev pub data_failed : ℤ → Bytes → FileArray → DataRead
data_failed r buf files = record { ret = r; buf = buf; files = files }

-- The place of the first byte, from the index in the flags and the offset.
unfoldable pub start_place : Filesys → ℕ → ℕ → ℕ → Place
start_place fs inode idx offset = record {
  inode_idx = idx;
  dnode_num = inode_word fs inode idx;
  byte_ptr = block fs (inode_word fs inode idx) + offset % 4096;
}

-- The body of read_data, where `buf` is no null pointer.
unfoldable pub read_to_buffer : Filesys → FileArray → ℕ → ℕ → Bytes → ℕ → ℤ → DataRead
read_to_buffer fs files inode offset buf length fd =
    if leb fs.bblock.n_inodes inode
    then data_failed failure buf files
    else if leb (inode_word fs inode 0) offset
    then data_failed (pos 0) buf files
    else if leb 1024 (start_idx files fd)
    then data_failed (pos 0) buf files
    else finish_read files fd length (
        copy_loop length fs inode (inode_word fs inode 0) 0 offset
          (start_place fs inode (start_idx files fd) offset) buf)

-- With a null pointer there is no buffer, and the field stands for nothing.
unfoldable pub read_data : Filesys → FileArray → ℕ → ℕ → Option Bytes → ℕ → ℤ → DataRead
unfolding read_to_buffer
read_data fs files inode offset none length fd = data_failed failure (λ j. 0) files
read_data fs files inode offset (some buf) length fd =
    read_to_buffer fs files inode offset buf length fd
