-- ===== src/Syscalls/Tabled.antt =====
-- Descriptors in use lead to a table: what the calls on descriptors of student-distrib/sys_calls.c
-- keep.
pub mod Read
pub mod Open
pub mod Calls
pub mod Same
use linux_based_os.Prelude.{
  bind, map_some, OnSome, OnSome-map_some, OnSome-map, OnSome-bind, OnSome-if, not, ◌||◌, to_u32, ℕ,
  zero, suc, ◌+◌, ◌%◌, ◌^◌, ◌<◌, ◌≤◌, ◌≡◌, ◌≢◌, ◌⊎◌, inl, inr, refl, ap, sym, ◌∙◌, arith, Bool,
  true, false, Bool-cases, Option-cases, leb, ◌==◌, if◌then◌else◌, Bytes, ℤ, pos, failure,
  is_minus_one, [], ◌∷◌, set, Option, none, some, ==→eq, ne→==, ltb, length, length-set, is_below,
  exceeds, is_neg, ==→ne,
}
use native.Mathlib.Decide.{ℕ_discrete}
use linux_based_os.Pcb.{
  FileOps, no_table, rtc_table, dir_table, file_table, terminal_table, FileDesc, FileArray, desc,
  desc-set_self, desc-set_ne, index, find_unused,
}
use linux_based_os.Filesys.{Filesys, inode_word, filetype, reg_file, dir_file, rtc_file, Dentry}
use linux_based_os.Filesys.Dentry.{Looked}
use linux_based_os.Filesys.Data.{
  read_data, read_to_buffer, finish_read, save_idx, start_idx, DataRead, Copied,
}
use linux_based_os.Filesys.File.{
  is_in_use, flags_type, file_read, read_at_pos, advance_pos, file_open, file_open_found,
  file_close,
}
use linux_based_os.Filesys.Dir.{
  DirRead, dir_read, read_entry_name, step_entry, dir_open, dir_open_found, dir_close,
}
use linux_based_os.Rtc.{Rtc, rtc_open, rtc_close}
use linux_based_os.Keyboard.Terminal.{terminal_close}
use linux_based_os.Syscalls.{
  Kernel, Events, Called, rtc_of, close_ptr, read_ptr, write_ptr, open_ptr, table_of, open_found,
  sys_open, dentry_of, is_closed, bad_fd, sys_read, sys_write, sys_close, checked, call_failed,
}
use linux_based_os.Syscalls.Image.{find_unused-flags}

-- An entry that is in use has a table.
abbrev pub IsTabled : FileDesc → Type 0
IsTabled f = f.flags % 2 ≢ 0 → f.file_op_ptr ≢ no_table

pub record Tabled (files : FileArray) : Type 0 where
  pub size : length files ≡ 8
  pub has_table : (j : ℕ) → IsTabled (desc files j)

-- A write to an entry, or past the last one.
pub desc-set :
    (files : FileArray) (i : ℕ) (f : FileDesc) (j : ℕ)
    → (desc (set files i f) j ≡ f) ⊎ (desc (set files i f) j ≡ desc files j)
desc-set [] i f j = inr refl
desc-set (g ∷ files) zero f zero = inl refl
desc-set (g ∷ files) zero f (suc j) = inr refl
desc-set (g ∷ files) (suc i) f zero = inr refl
desc-set (g ∷ files) (suc i) f (suc j) = desc-set files i f j

pub set-Tabled :
    (files : FileArray) (i : ℕ) (f : FileDesc) → Tabled files → IsTabled f → Tabled (set files i f)
set-Tabled files i f v w = record {
  size = length-set files i f ∙ v.size;
  has_table = λ j. elim (desc-set files i f j) [ inl e ↦ rw e w | inr e ↦ rw e (v.has_table j) ];
}

-- A clear in-use bit is no condition on the table.
abbrev pub cleared : FileDesc → FileDesc
cleared f = record f { flags = 0 }

pub cleared-Tabled :
    (files : FileArray) (i : ℕ) → Tabled files → Tabled (set files i (cleared (desc files i)))
cleared-Tabled files i v = set-Tabled files i (cleared (desc files i)) v (λ odd. absurd (odd refl))

-- An array whose entries in use have tables, and so has entry `i`, in use or not.
abbrev pub TabledAt : FileArray → ℕ → Type 0
TabledAt files i = Tabled files × ((desc files i).file_op_ptr ≢ no_table)

pub set-TabledAt :
    (files : FileArray) (i : ℕ) (f : FileDesc)
    → TabledAt files i
    → f.file_op_ptr ≡ (desc files i).file_op_ptr
    → TabledAt (set files i f) i
set-TabledAt files i f v e = (
  set-Tabled files i f v.0 (λ odd. rw e v.1),
  elim (desc-set files i f i) [ inl q ↦ rw (q, e) v.1 | inr q ↦ rw q v.1 ],
)
