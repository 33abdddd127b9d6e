-- ===== src/Filesys.antt =====
-- The state of student-distrib/filesys.c and its set-up. The image lies in the kernel's memory at
-- `filesys_ptr`; buffers and local variables are taken not to overlap it.
pub mod Dentry
pub mod Data
pub mod File
pub mod Dir
pub mod Image
mod Tests
use linux_based_os.Prelude.{
  ℕ, zero, suc, ◌+◌, ◌*◌, ◌%◌, ◌^◌, ℤ, pos, failure, to_i32, Option, none, some, ltb, ◌==◌,
  if◌then◌else◌, Bytes, update, word, set_word,
}

-- `bblock_t`; `n_inodes` and `n_data_blocks` are its fields N and D.
pub record BootBlock : Type 0 where
  pub n_dir_entries : ℕ
  pub n_inodes : ℕ
  pub n_data_blocks : ℕ
  pub reserved : ℕ

-- A `dentry_t` is its bytes: the name at 0, the type at 32, the inode number at 36 and the
-- reserved bytes at 40.
abbrev pub Dentry : Type 0
Dentry = Bytes

abbrev pub filetype : Dentry → ℕ
filetype d = word d 32

abbrev pub inode_num : Dentry → ℕ
inode_num d = word d 36

-- The globals of filesys.c, with the memory that its pointers lead to.
pub record Filesys : Type 0 where
  pub mem : Bytes
  pub filesys_ptr : ℕ
  pub bblock : BootBlock
  pub open_dentry : Dentry
  pub read_dentry : Dentry
  pub filename_buf : Bytes

abbrev pub rtc_file : ℕ
rtc_file = 0

abbrev pub dir_file : ℕ
dir_file = 1

abbrev pub reg_file : ℕ
reg_file = 2

-- The word at a byte offset from `filesys_ptr`; an address has 32 bits.
unfoldable pub load : Filesys → ℕ → ℕ
load fs offset = word fs.mem ((fs.filesys_ptr + offset) % 2 ^ 32)

-- The memory that a `char` pointer to a byte offset from `filesys_ptr` leads to.
unfoldable pub chars : Filesys → ℕ → Bytes
chars fs offset i = fs.mem ((fs.filesys_ptr + offset + i) % 2 ^ 32)

-- The word `idx` of an inode; word 0 is the length, and the data block numbers follow.
unfoldable pub inode_word : Filesys → ℕ → ℕ → ℕ
inode_word fs inode idx = load fs (4096 * (inode + 1) + 4 * idx)

-- The byte offset of a data block.
unfoldable pub block : Filesys → ℕ → ℕ
block fs dnode_num = 4096 * (fs.bblock.n_inodes + dnode_num + 1)

-- The loop of init_filesys over a global dentry.
unfoldable pub clear_dentry_loop : ℕ → ℕ → Dentry → Dentry
clear_dentry_loop zero idx d = d
clear_dentry_loop (suc left) idx d =
    clear_dentry_loop left (idx + 1)
      (if ltb idx 24 then update (update d idx 0) (40 + idx) 0 else update d idx 0)

abbrev pub clear_dentry : Dentry → Dentry
clear_dentry d = set_word (set_word (clear_dentry_loop 32 0 d) 32 0) 36 0

unfoldable pub init_filesys : ℕ → Filesys → Filesys
unfolding load clear_dentry_loop
init_filesys ptr fs =
    let fs' = record fs { filesys_ptr = ptr } in
    record fs' {
      bblock = record {
        n_dir_entries = load fs' 0;
        n_inodes = load fs' 4;
        n_data_blocks = load fs' 8;
        reserved = 0;
      };
      open_dentry = clear_dentry fs.open_dentry;
      read_dentry = clear_dentry fs.read_dentry;
    }

-- A null pointer is `none`.
unfoldable pub get_file_size : Filesys → Option Dentry → ℤ
unfolding load
get_file_size fs none = failure
get_file_size fs (some d) =
    if filetype d == reg_file then to_i32 (load fs (4096 * (inode_num d + 1))) else pos 0
