-- ===== src/Syscalls/Image.antt =====
-- States of student-distrib/filesys.c with the same image: what the lookups leave alone.
use linux_based_os.Prelude.{
  ℕ, zero, suc, ◌+◌, ◌≡◌, inl, inr, refl, sym, arith, Bool-cases, ltb, Bytes,
}
use linux_based_os.Pcb.{FileArray, FileDesc, desc, find_unused}
use linux_based_os.Filesys.{Filesys, Dentry, load, chars, inode_word, block}
use linux_based_os.Filesys.Dentry.{local, Search, missing, found, finish_by_name, write_dest}
use linux_based_os.Filesys.Dentry.Lookup.{IsSearchable, SameImage}
use linux_based_os.Filesys.Data.{load_byte, DataRead}
use linux_based_os.Filesys.Data.Read.{Delivers}
use linux_based_os.Filesys.Data.Contents.{file_size, file_byte}
use linux_based_os.Filesys.File.Open.{IsFirst}
use linux_based_os.Filesys.File.Read.{IsOpen}

-- The state of filesys.c with other buffers.
abbrev pub buffers : Filesys → Dentry → Dentry → Bytes → Filesys
buffers fs open_dentry read_dentry filename_buf = record fs {
  open_dentry = open_dentry;
  read_dentry = read_dentry;
  filename_buf = filename_buf;
}

pub SameImage-buffers :
    (fs fs' : Filesys)
    → SameImage fs fs'
    → fs' ≡ buffers fs fs'.open_dentry fs'.read_dentry fs'.filename_buf
SameImage-buffers fs fs' img = rw (sym img.mem, sym img.filesys_ptr, sym img.bblock) refl

pub IsSearchable-buffers :
    (fs : Filesys) (a b : Dentry) (c fname : Bytes)
    → IsSearchable fs fname
    → IsSearchable (buffers fs a b c) fname
unfolding chars
IsSearchable-buffers fs a b c fname v = record {
  mounted = v.mounted;
  fname_len = v.fname_len;
  fname_ends = v.fname_ends;
  short = v.short;
  names_end = v.names_end;
}

pub local_image :
    (fs : Filesys) (d : Dentry) (s : Search) → SameImage fs (finish_by_name fs (local d) s).fs
unfolding finish_by_name write_dest
local_image fs d (missing buf) = record { mem = refl; filesys_ptr = refl; bblock = refl }
local_image fs d (found k len buf) = record { mem = refl; filesys_ptr = refl; bblock = refl }

pub find_unused-flags :
    (left i : ℕ) (a b : FileArray)
    → ((j : ℕ) → (desc a j).flags ≡ (desc b j).flags)
    → find_unused left i a ≡ find_unused left i b
unfolding find_unused
find_unused-flags zero i a b h = refl
find_unused-flags (suc left) i a b h = ground (arith, h i, find_unused-flags left (i + 1) a b h)

-- Two first entries of the same name are one.
pub IsFirst-unique :
    (fs : Filesys) (fname : Bytes) (k m : ℕ) → IsFirst fs fname k → IsFirst fs fname m → k ≡ m
IsFirst-unique fs fname k m v w = elim (Bool-cases (ltb k m)) [
  | inl less ↦ absurd (w.first k v.in_directory.0 (ground arith) v.named)
  | inr not_less ↦ elim (Bool-cases (ltb m k)) [
    | inl more ↦ absurd (v.first m w.in_directory.0 (ground arith) w.named)
    | inr equal ↦ ground arith
  ]
]

pub IsOpen-buffers :
    (fs : Filesys) (a b : Dentry) (c : Bytes) (f : FileDesc)
    → IsOpen fs f
    → IsOpen (buffers fs a b c) f
unfolding inode_word load
IsOpen-buffers fs a b c f v = record {
  known = v.known;
  well_formed = record { fits = v.well_formed.fits; blocks = v.well_formed.blocks };
  in_step = v.in_step;
  flags_fit = v.flags_fit;
  pos_fits = v.pos_fits;
  is_regular = v.is_regular;
}

-- What the file of inode `inode` holds does not depend on the buffers.
pub Delivers-buffers :
    (fs : Filesys) (a b : Dentry) (c : Bytes) (inode p n : ℕ) (buf : Bytes) (r : DataRead)
    → Delivers (buffers fs a b c) inode p n buf r
    → Delivers fs inode p n buf r
unfolding file_byte load_byte block inode_word load
Delivers-buffers fs a b c inode p n buf r d = record {
  ret = d.ret;
  bytes = d.bytes;
  beyond = d.beyond;
}

pub file_size-buffers :
    (fs : Filesys) (a b : Dentry) (c : Bytes) (inode : ℕ)
    → file_size (buffers fs a b c) inode ≡ file_size fs inode
unfolding inode_word load
file_size-buffers fs a b c inode = refl
