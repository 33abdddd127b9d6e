-- ===== src/Filesys/File.antt =====
-- The driver of regular files in student-distrib/filesys.c.
pub mod Flags
pub mod Read
pub mod Sequence
pub mod Open
pub mod Failure
use linux_based_os.Prelude.{
  bind, Bool, ℕ, ◌+◌, ◌*◌, ◌/◌, ◌%◌, ◌^◌, ℤ, pos, negsuc, failure, to_u32, exceeds, is_below,
  is_minus_one, Option, none, some, ltb, leb, ◌==◌, ◌||◌, not, if◌then◌else◌, Bytes, bit_and,
  bit_or, set,
}
use linux_based_os.Cstring.{zero_fill}
use linux_based_os.Pcb.{FileDesc, FileArray, desc, index, find_unused}
use linux_based_os.Filesys.{Filesys, Dentry, filetype, inode_num, reg_file}
use linux_based_os.Filesys.Dentry.{Looked, global_open, read_dentry_by_name}
use linux_based_os.Filesys.Data.{DataRead, read_data, data_failed, use_mask, type_mask}

-- ((flags & TYPE_MASK) >> TYPE_SHIFT)
unfoldable pub flags_type : ℕ → ℕ
flags_type flags = bit_and flags type_mask / 2

unfoldable pub is_in_use : ℕ → Bool
is_in_use flags = not (bit_and flags use_mask == 0)

-- file_pos += ret_val, on 32 bits
unfoldable pub advance_pos : FileArray → ℕ → ℤ → FileArray
advance_pos files fd ret =
    set files fd
      (record (desc files fd) { file_pos = ((desc files fd).file_pos + to_u32 ret) % 2 ^ 32 })

-- file_read on a checked descriptor, past the tests of its flags.
unfoldable pub read_at_pos : Filesys → FileArray → ℤ → Option Bytes → ℤ → DataRead
unfolding advance_pos
read_at_pos fs files fd buf nbytes =
    let f = desc files (index fd) in
    let r = read_data fs files f.inode f.file_pos buf (to_u32 nbytes) fd in
    record r { files = advance_pos r.files (index fd) r.ret }

unfoldable pub file_read : Filesys → FileArray → ℤ → Option Bytes → ℤ → DataRead
unfolding flags_type is_in_use read_at_pos
file_read fs files fd none nbytes = data_failed failure (λ j. 0) files
file_read fs files fd (some buf) nbytes =
    if not (is_in_use (desc files (index fd)).flags)
      || not (flags_type (desc files (index fd)).flags == reg_file)
    then data_failed failure buf files
    else read_at_pos fs files fd (some buf) nbytes

unfoldable pub file_write : ℤ → Option Bytes → ℤ → ℤ
file_write fd buf nbytes = failure

-- What an open leaves: its result, the globals of filesys.c and the file array.
pub record Opened : Type 0 where
  pub ret : ℤ
  pub fs : Filesys
  pub files : FileArray

abbrev pub open_failed : Filesys → FileArray → Opened
open_failed fs files = record { ret = failure; fs = fs; files = files }

-- The flags that file_open sets, with the index of the first data block.
abbrev pub file_open_flags : ℕ
file_open_flags = bit_or (bit_or 0x00000001 (reg_file * 2)) (0x1 * 2 ^ 8)

-- file_open, once read_dentry_by_name has returned.
unfoldable pub file_open_found : FileArray → ℕ → Looked → Opened
file_open_found files i looked =
    if is_minus_one looked.ret
    then open_failed looked.fs files
    else if not (filetype looked.fs.open_dentry == reg_file)
    then open_failed looked.fs files
    else record {
      ret = pos 0;
      fs = looked.fs;
      files = set files i (record (desc files i) {
        inode = inode_num looked.fs.open_dentry;
        file_pos = 0;
        flags = file_open_flags;
      });
    }

unfoldable pub file_open : Filesys → FileArray → Option Bytes → Option Opened
unfolding file_open_found
file_open fs files filename =
    if leb 8 (find_unused 6 2 files)
    then some (open_failed fs files)
    else bind (read_dentry_by_name fs filename global_open)
        λ looked. some (file_open_found files (find_unused 6 2 files) looked)

abbrev pub is_out_of_range : ℤ → Bool
is_out_of_range fd = is_below fd 2 || exceeds fd 7

-- The loop of file_close over the names of both global dentries.
abbrev pub clear_names : Filesys → Filesys
clear_names fs = record fs {
  open_dentry = zero_fill 32 0 fs.open_dentry;
  read_dentry = zero_fill 32 0 fs.read_dentry;
}

unfoldable pub file_close : Filesys → FileArray → ℤ → Opened
unfolding flags_type
file_close fs files fd =
    if is_out_of_range fd
    then open_failed fs files
    else if not (flags_type (desc files (index fd)).flags == reg_file)
    then open_failed fs files
    else if (desc files (index fd)).flags % 2 == 0
    then open_failed fs files
    else record {
      ret = pos 0;
      fs = clear_names fs;
      files = set files (index fd) (record (desc files (index fd)) { flags = 0 });
    }
