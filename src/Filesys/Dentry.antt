-- ===== src/Filesys/Dentry.antt =====
-- read_dentry_by_name and read_dentry_by_index of student-distrib/filesys.c.
pub mod Fill
pub mod ByName
pub mod Lookup
use linux_based_os.Prelude.{
  bind, ℕ, zero, suc, ◌+◌, ◌-◌, ◌*◌, ℤ, pos, failure, Option, none, some, ltb, leb, ◌==◌,
  if◌then◌else◌, Bytes, update, set_word, Bool, true, false,
}
use linux_based_os.Cstring.{strlen, strncpy, strncmp, zero_fill}
use linux_based_os.Filesys.{Filesys, Dentry, load, chars, reg_file}

-- The `dentry_t*` argument: null, one of the two globals, or a variable of the caller.
pub data Dest : Type 0 where
  null : Dest
  global_open : Dest
  global_read : Dest
  local : Dentry → Dest

-- What a lookup leaves: its result, the globals and the destination.
pub record Looked : Type 0 where
  pub ret : ℤ
  pub fs : Filesys
  pub dest : Dest

-- Applies what is written through the pointer.
unfoldable pub write_dest : (Dentry → Dentry) → Filesys → Dest → Looked
write_dest f fs null = record { ret = pos 0; fs = fs; dest = null }
write_dest f fs global_open = record {
  ret = pos 0;
  fs = record fs { open_dentry = f fs.open_dentry };
  dest = global_open;
}
write_dest f fs global_read = record {
  ret = pos 0;
  fs = record fs { read_dentry = f fs.read_dentry };
  dest = global_read;
}
write_dest f fs (local d) = record { ret = pos 0; fs = fs; dest = local (f d) }

abbrev pub failed : Filesys → Dest → Looked
failed fs dest = record { ret = failure; fs = fs; dest = dest }

-- The end of both lookups: the padding behind the name, then the type and the inode number of the
-- entry `k`, which lies at offset 64 * k.
unfoldable pub fill_dentry : Filesys → ℕ → ℕ → Dentry → Dentry
fill_dentry fs k str_length d =
    let padded = zero_fill (32 - str_length) str_length d in
    let typed = set_word padded 32 (load fs (64 * k + 32)) in
    if load fs (64 * k + 32) == reg_file
    then set_word typed 36 (load fs (64 * k + 36))
    else set_word typed 36 0

-- How the loop over the directory ends, with what `filename_buf` holds.
pub data Search : Type 0 where
  missing : Bytes → Search
  found : ℕ → ℕ → Bytes → Search

-- One round copies the name of the entry to the buffer and ends it where there is room.
unfoldable pub copy_name : Filesys → ℕ → ℕ → Bytes → Bytes
copy_name fs dir_it str_length buf =
    let copied = strncpy buf (chars fs (64 * dir_it)) str_length in
    if ltb str_length 32 then update copied str_length 0 else copied

abbrev pub is_zero : ℤ → Bool
is_zero (pos n) = n == 0
is_zero n = false

unfoldable pub search_loop : Filesys → Bytes → ℕ → ℕ → Bytes → Option Search
unfolding copy_name
search_loop fs fname zero dir_it buf = some (missing buf)
search_loop fs fname (suc left) dir_it buf = bind (strlen (chars fs (64 * dir_it))) λ str_length.
    let buf' = copy_name fs dir_it str_length buf in
    let rest = search_loop fs fname left (dir_it + 1) buf' in
    if is_zero (strncmp fname buf' 32) then some (found dir_it str_length buf') else rest

-- The name goes to `open_dentry`, wherever `dentry` points.
unfoldable pub finish_by_name : Filesys → Dest → Search → Looked
unfolding write_dest fill_dentry
finish_by_name fs dest (missing buf) = failed (record fs { filename_buf = buf }) dest
finish_by_name fs dest (found dir_it str_length buf) =
    let fs' = record fs {
      filename_buf = buf;
      open_dentry = strncpy fs.open_dentry buf str_length;
    } in
    write_dest (fill_dentry fs dir_it str_length) fs' dest

unfoldable pub by_name_checked : Filesys → Bytes → Dest → Option Looked
unfolding search_loop finish_by_name
by_name_checked fs fname dest = bind (strlen fname) λ len.
    if ltb 32 len
    then some (failed fs dest)
    else bind (search_loop fs fname fs.bblock.n_dir_entries 1 fs.filename_buf)
        λ s. some (finish_by_name fs dest s)

unfoldable pub read_dentry_by_name : Filesys → Option Bytes → Dest → Option Looked
unfolding by_name_checked
read_dentry_by_name fs none dest = some (failed fs dest)
read_dentry_by_name fs (some fname) null = some (failed fs null)
read_dentry_by_name fs (some fname) dest =
    if fs.filesys_ptr == 0 then some (failed fs dest) else by_name_checked fs fname dest

-- What read_dentry_by_index writes to the destination.
unfoldable pub dentry_of_entry : Filesys → ℕ → ℕ → Dentry → Dentry
unfolding fill_dentry
dentry_of_entry fs k str_length d =
    fill_dentry fs k str_length (strncpy d (chars fs (64 * k)) str_length)

unfoldable pub read_dentry_by_index : Filesys → ℕ → Dest → Option Looked
unfolding write_dest dentry_of_entry
read_dentry_by_index fs index null = some (failed fs null)
read_dentry_by_index fs index dest =
    if leb fs.bblock.n_dir_entries index
    then some (failed fs dest)
    else bind (strlen (chars fs (64 * (index + 1))))
        λ str_length. some (write_dest (dentry_of_entry fs (index + 1) str_length) fs dest)
