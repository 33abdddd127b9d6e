-- ===== src/Syscalls/Tabled/Read.antt =====
-- What the read routines of student-distrib/filesys.c keep of the tables of the descriptors.
use linux_based_os.Prelude.{
  OnSome, OnSome-bind, OnSome-if, not, ◌||◌, to_u32, ℕ, inl, inr, refl, Bool-cases, leb, ◌==◌,
  Bytes, ℤ, is_minus_one, Option, none, some, length,
}
use linux_based_os.Pcb.{FileArray, desc, index}
use linux_based_os.Filesys.{Filesys, inode_word, reg_file}
use linux_based_os.Filesys.Data.{
  read_data, read_to_buffer, finish_read, save_idx, start_idx, Copied,
}
use linux_based_os.Filesys.File.{is_in_use, flags_type, file_read, read_at_pos, advance_pos}
use linux_based_os.Filesys.Dir.{DirRead, dir_read, read_entry_name, step_entry}
use linux_based_os.Syscalls.Tabled.{Tabled, TabledAt, set-TabledAt}

save_idx-TabledAt :
    (files : FileArray) (fd : ℤ) (idx : ℕ)
    → TabledAt files (index fd)
    → TabledAt (save_idx files fd idx) (index fd)
unfolding save_idx
save_idx-TabledAt files fd idx v = elim (Bool-cases (is_minus_one fd)) [
  | inl e ↦ rw e v
  | inr e ↦ rw e (set-TabledAt files (index fd) _ v refl)
]

finish_read-TabledAt :
    (files : FileArray) (fd : ℤ) (length : ℕ) (c : Copied)
    → TabledAt files (index fd)
    → TabledAt (finish_read files fd length c).files (index fd)
unfolding finish_read
finish_read-TabledAt files fd length c v = elim (Bool-cases c.early) [
  | inl e ↦ rw e v
  | inr e ↦ rw e (save_idx-TabledAt files fd c.inode_idx v)
]

read_data-TabledAt :
    (fs : Filesys) (files : FileArray) (inode offset : ℕ) (buf : Option Bytes) (length : ℕ) (fd : ℤ)
    → TabledAt files (index fd)
    → TabledAt (read_data fs files inode offset buf length fd).files (index fd)
unfolding read_data read_to_buffer
read_data-TabledAt fs files inode offset none length fd v = v
read_data-TabledAt fs files inode offset (some buf) length fd v =
    elim (Bool-cases (leb fs.bblock.n_inodes inode)) [
      | inl e1 ↦ rw e1 v
      | inr e1 ↦ elim (Bool-cases (leb (inode_word fs inode 0) offset)) [
        | inl e2 ↦ rw (e1, e2) v
        | inr e2 ↦ elim (Bool-cases (leb 1024 (start_idx files fd))) [
          | inl e3 ↦ rw (e1, e2, e3) v
          | inr e3 ↦ rw (e1, e2, e3) (finish_read-TabledAt files fd length _ v)
        ]
      ]
    ]

advance_pos-Tabled :
    (files : FileArray) (i : ℕ) (ret : ℤ) → TabledAt files i → Tabled (advance_pos files i ret)
unfolding advance_pos
advance_pos-Tabled files i ret v = (set-TabledAt files i _ v refl).0

pub file_read-Tabled :
    (fs : Filesys) (files : FileArray) (fd : ℤ) (buf : Option Bytes) (nbytes : ℤ)
    → TabledAt files (index fd)
    → Tabled (file_read fs files fd buf nbytes).files
unfolding file_read read_at_pos
file_read-Tabled fs files fd none nbytes v = v.0
file_read-Tabled fs files fd (some buf) nbytes v =
    let f = desc files (index fd) in
    let read = read_data-TabledAt fs files f.inode f.file_pos (some buf) (to_u32 nbytes) fd v in
    elim (Bool-cases (not (is_in_use f.flags) || not (flags_type f.flags == reg_file))) [
      | inl e ↦ rw e v.0
      | inr e ↦ rw e (advance_pos-Tabled _ (index fd) _ read)
    ]

read_entry_name-Tabled :
    (files : FileArray) (i : ℕ) (buf : Bytes) (nbytes : ℤ) (fs : Filesys)
    → TabledAt files i
    → Tabled (read_entry_name files i buf nbytes fs).files
unfolding read_entry_name step_entry
read_entry_name-Tabled files i buf nbytes fs v = (set-TabledAt files i _ v refl).0

pub dir_read-Tabled :
    (fs : Filesys) (files : FileArray) (fd : ℤ) (buf : Bytes) (nbytes : ℤ)
    → TabledAt files (index fd)
    → OnSome (λ r. Tabled r.files) (dir_read fs files fd (some buf) nbytes)
unfolding dir_read
dir_read-Tabled fs files fd buf nbytes v =
    let no = λ (ret : ℤ) (fs' : Filesys). v.0 in
    let P = λ (r : DirRead). Tabled r.files in
    let name = λ (fs' : Filesys). read_entry_name-Tabled files (index fd) buf nbytes fs' v in
    search (OnSome-if, OnSome-bind, v.0, name) depth 9
