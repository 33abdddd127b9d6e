-- ===== src/Syscalls/Tabled/Same.antt =====
-- file_read of student-distrib/filesys.c leaves the table of its descriptor.
use linux_based_os.Prelude.{
  ℕ, ◌≡◌, refl, ◌∙◌, inl, inr, Bool-cases, not, ◌||◌, leb, ◌==◌, Bytes, ℤ, is_minus_one, to_u32,
  set, some,
}
use linux_based_os.Pcb.{FileArray, FileDesc, desc, index}
use linux_based_os.Filesys.{Filesys, inode_word, reg_file}
use linux_based_os.Filesys.Data.{
  Copied, finish_read, read_data, read_to_buffer, save_idx, start_idx,
}
use linux_based_os.Filesys.File.{advance_pos, file_read, flags_type, is_in_use, read_at_pos}
use linux_based_os.Syscalls.Tabled.{desc-set}

-- Entry `i` has the same table in both arrays.
abbrev SameTable : ℕ → FileArray → FileArray → Type 0
SameTable i files files' = (desc files' i).file_op_ptr ≡ (desc files i).file_op_ptr

set-SameTable :
    (files : FileArray) (i : ℕ) (f : FileDesc)
    → f.file_op_ptr ≡ (desc files i).file_op_ptr
    → SameTable i files (set files i f)
set-SameTable files i f e = elim (desc-set files i f i) [ inl q ↦ rw q e | inr q ↦ rw q refl ]

finish_read-SameTable :
    (files : FileArray) (fd : ℤ) (length : ℕ) (c : Copied)
    → SameTable (index fd) files (finish_read files fd length c).files
unfolding finish_read save_idx
finish_read-SameTable files fd length c = elim (Bool-cases c.early) [
  | inl e ↦ rw e refl
  | inr e ↦ elim (Bool-cases (is_minus_one fd)) [
    | inl q ↦ rw (e, q) refl
    | inr q ↦ rw (e, q) (set-SameTable files (index fd) _ refl)
  ]
]

read_data-SameTable :
    (fs : Filesys) (files : FileArray) (inode offset : ℕ) (buf : Bytes) (length : ℕ) (fd : ℤ)
    → SameTable (index fd) files (read_data fs files inode offset (some buf) length fd).files
unfolding read_data read_to_buffer
read_data-SameTable fs files inode offset buf length fd =
    elim (Bool-cases (leb fs.bblock.n_inodes inode)) [
      | inl e1 ↦ rw e1 refl
      | inr e1 ↦ elim (Bool-cases (leb (inode_word fs inode 0) offset)) [
        | inl e2 ↦ rw (e1, e2) refl
        | inr e2 ↦ elim (Bool-cases (leb 1024 (start_idx files fd))) [
          | inl e3 ↦ rw (e1, e2, e3) refl
          | inr e3 ↦ rw (e1, e2, e3) (finish_read-SameTable files fd length _)
        ]
      ]
    ]

advance_pos-SameTable :
    (files : FileArray) (i : ℕ) (ret : ℤ) → SameTable i files (advance_pos files i ret)
unfolding advance_pos
advance_pos-SameTable files i ret = set-SameTable files i _ refl

pub file_read-SameTable :
    (fs : Filesys) (files : FileArray) (fd : ℤ) (buf : Bytes) (nbytes : ℤ)
    → SameTable (index fd) files (file_read fs files fd (some buf) nbytes).files
unfolding file_read read_at_pos
file_read-SameTable fs files fd buf nbytes =
    let f = desc files (index fd) in
    elim (Bool-cases (not (is_in_use f.flags) || not (flags_type f.flags == reg_file))) [
      | inl e ↦ rw e refl
      | inr e ↦ rw e (
          advance_pos-SameTable _ (index fd) _
          ∙ read_data-SameTable fs files f.inode f.file_pos buf (to_u32 nbytes) fd)
    ]
