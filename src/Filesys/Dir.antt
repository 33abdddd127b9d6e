-- ===== src/Filesys/Dir.antt =====
-- The driver of directories in student-distrib/filesys.c.
pub mod Name
pub mod Read
mod Tests
use linux_based_os.Prelude.{
  bind, ℕ, zero, suc, ◌+◌, ◌*◌, ◌/◌, ◌%◌, ◌^◌, ℤ, pos, failure, exceeds, is_minus_one, Option, none,
  some, leb, ◌==◌, ◌||◌, ◌&&◌, not, if◌then◌else◌, Bytes, byte_at, update, bit_or, set,
}
use linux_based_os.Pcb.{FileDesc, FileArray, desc, index, find_unused}
use linux_based_os.Filesys.{Filesys, filetype, inode_num, dir_file}
use linux_based_os.Filesys.Dentry.{
  Looked, global_open, global_read, read_dentry_by_name, read_dentry_by_index,
}
use linux_based_os.Filesys.File.{Opened, open_failed, flags_type, is_in_use, is_out_of_range}

-- What dir_read leaves: its result, the globals of filesys.c, the buffer and the file array.
pub record DirRead : Type 0 where
  pub ret : ℤ
  pub fs : Filesys
  pub buf : Bytes
  pub files : FileArray

abbrev pub dir_failed : ℤ → Filesys → Bytes → FileArray → DirRead
dir_failed ret fs buf files = record { ret = ret; fs = fs; buf = buf; files = files }

-- The loop over the name; `cnt` and `dr_buf_idx` are always the same number. A name has 32
-- characters at most, so 32 rounds are enough.
unfoldable pub copy_filename : ℕ → ℕ → Bytes → ℤ → Bytes → ℕ × Bytes
copy_filename zero cnt name nbytes buf = (cnt, buf)
copy_filename (suc left) cnt name nbytes buf =
    let rest = copy_filename left (cnt + 1) name nbytes (update buf cnt (byte_at name cnt)) in
    if exceeds nbytes cnt && not (byte_at name cnt == 0) then rest else (cnt, buf)

-- The end of a name is marked in the buffer, if the name was copied whole.
unfoldable pub end_filename : Bytes → ℕ → Bytes → Bytes
end_filename name cnt buf = if leb 32 cnt || (byte_at name cnt == 0) then update buf cnt 0 else buf

unfoldable pub step_entry : FileArray → ℕ → FileArray
step_entry files fd =
    set files fd (record (desc files fd) { file_pos = ((desc files fd).file_pos + 1) % 2 ^ 32 })

-- dir_read, once read_dentry_by_index has filled read_dentry.
unfoldable pub read_entry_name : FileArray → ℕ → Bytes → ℤ → Filesys → DirRead
read_entry_name files fd buf nbytes fs =
    let (cnt, copied) = copy_filename 32 0 fs.read_dentry nbytes buf in
    record {
      ret = pos cnt;
      fs = fs;
      buf = end_filename fs.read_dentry cnt copied;
      files = step_entry files fd;
    }

unfoldable pub dir_read : Filesys → FileArray → ℤ → Option Bytes → ℤ → Option DirRead
dir_read fs files fd none nbytes = some (dir_failed failure fs (λ j. 0) files)
dir_read fs files fd (some buf) nbytes =
    if is_out_of_range fd
    then some (dir_failed failure fs buf files)
    else if not (is_in_use (desc files (index fd)).flags)
        || ((desc files (index fd)).flags / 2 % 2 == 0)
    then some (dir_failed failure fs buf files)
    else if leb fs.bblock.n_dir_entries (desc files (index fd)).file_pos
    then some (dir_failed (pos 0) fs buf files)
    else bind (read_dentry_by_index fs (desc files (index fd)).file_pos global_read) λ looked.
      if is_minus_one looked.ret
      then some (dir_failed failure looked.fs buf files)
      else some (read_entry_name files (index fd) buf nbytes looked.fs)

unfoldable pub dir_write : ℤ → Option Bytes → ℤ → ℤ
dir_write fd buf nbytes = failure

-- The flags that dir_open sets.
abbrev pub dir_open_flags : ℕ
dir_open_flags = bit_or 1 (dir_file * 2)

unfoldable pub dir_open_found : FileArray → ℕ → Looked → Opened
dir_open_found files i looked =
    if is_minus_one looked.ret
    then open_failed looked.fs files
    else if not (filetype looked.fs.open_dentry == dir_file)
    then open_failed looked.fs files
    else record {
      ret = pos 0;
      fs = looked.fs;
      files = set files i (record (desc files i) {
        inode = inode_num looked.fs.open_dentry;
        file_pos = 0;
        flags = dir_open_flags;
      });
    }

unfoldable pub dir_open : Filesys → FileArray → Option Bytes → Option Opened
dir_open fs files none = some (open_failed fs files)
dir_open fs files (some filename) =
    if leb 8 (find_unused 6 2 files)
    then some (open_failed fs files)
    else bind (read_dentry_by_name fs (some filename) global_open)
        λ looked. some (dir_open_found files (find_unused 6 2 files) looked)

unfoldable pub dir_close : Filesys → FileArray → ℤ → Opened
dir_close fs files fd =
    if is_out_of_range fd
    then open_failed fs files
    else if not (flags_type (desc files (index fd)).flags == dir_file)
    then open_failed fs files
    else if (desc files (index fd)).flags % 2 == 0
    then open_failed fs files
    else record {
      ret = pos 0;
      fs = fs;
      files = set files (index fd) (record (desc files (index fd)) { flags = 0 });
    }
