-- ===== src/Syscalls/Tabled/Open.antt =====
-- What the open routines behind sys_open_c, student-distrib/sys_calls.c, keep of the tables of the
-- descriptors.
use linux_based_os.Prelude.{
  OnSome, OnSome-bind, OnSome-if, ℕ, inl, inr, refl, Bool-cases, leb, ◌==◌, Bytes, is_minus_one,
  some, ◌<◌, ◌≡◌, ◌≢◌, ap, arith, set, ◌∙◌, OnSome-map,
}
use native.Mathlib.Decide.{ℕ_discrete}
use linux_based_os.Pcb.{
  FileArray, find_unused, FileOps, no_table, rtc_table, dir_table, file_table, terminal_table,
  FileDesc, desc-set_self, desc-set_ne, desc,
}
use linux_based_os.Filesys.{Filesys, filetype, reg_file, dir_file}
use linux_based_os.Filesys.Dentry.{Looked}
use linux_based_os.Filesys.File.{file_open, file_open_found}
use linux_based_os.Filesys.Dir.{dir_open, dir_open_found}
use linux_based_os.Rtc.{Rtc, rtc_open}
use linux_based_os.Syscalls.Tabled.{Tabled, TabledAt, set-TabledAt, set-Tabled, desc-set}
use linux_based_os.Syscalls.{Kernel, Events, rtc_of, open_ptr, table_of}
use linux_based_os.Syscalls.Image.{find_unused-flags}

dir_open_found-Tabled :
    (files : FileArray) (i : ℕ) (looked : Looked)
    → TabledAt files i
    → Tabled (dir_open_found files i looked).files
unfolding dir_open_found
dir_open_found-Tabled files i looked v = elim (Bool-cases (is_minus_one looked.ret)) [
  | inl e1 ↦ rw e1 v.0
  | inr e1 ↦ elim (Bool-cases (filetype looked.fs.open_dentry == dir_file)) [
    | inl e2 ↦ rw (e1, e2) (set-TabledAt files i _ v refl).0
    | inr e2 ↦ rw (e1, e2) v.0
  ]
]

file_open_found-Tabled :
    (files : FileArray) (i : ℕ) (looked : Looked)
    → TabledAt files i
    → Tabled (file_open_found files i looked).files
unfolding file_open_found
file_open_found-Tabled files i looked v = elim (Bool-cases (is_minus_one looked.ret)) [
  | inl e1 ↦ rw e1 v.0
  | inr e1 ↦ elim (Bool-cases (filetype looked.fs.open_dentry == reg_file)) [
    | inl e2 ↦ rw (e1, e2) (set-TabledAt files i _ v refl).0
    | inr e2 ↦ rw (e1, e2) v.0
  ]
]

module _ (files : FileArray) (v : TabledAt files (find_unused 6 2 files)) where
  rtc_open-Tabled : (r : Rtc) (prev : ℕ) → Tabled (rtc_open r files prev).files
  unfolding rtc_open
  rtc_open-Tabled r prev = elim (Bool-cases (leb 8 (find_unused 6 2 files))) [
    | inl e ↦ rw e v.0
    | inr e ↦ rw e (set-TabledAt files _ _ v refl).0
  ]

  dir_open-Tabled :
      (fs : Filesys) (fname : Bytes) → OnSome (λ o. Tabled o.files) (dir_open fs files (some fname))
  unfolding dir_open
  dir_open-Tabled fs fname =
      let found =
        λ (looked : Looked). dir_open_found-Tabled files (find_unused 6 2 files) looked v in
      search (OnSome-if, OnSome-bind, v.0, found) depth 7

  file_open-Tabled :
      (fs : Filesys) (fname : Bytes)
      → OnSome (λ o. Tabled o.files) (file_open fs files (some fname))
  unfolding file_open
  file_open-Tabled fs fname =
      let found =
        λ (looked : Looked). file_open_found-Tabled files (find_unused 6 2 files) looked v in
      search (OnSome-if, OnSome-bind, v.0, found) depth 7

pub open_ptr-Tabled :
    (ops : FileOps) (k : Kernel) (ev : Events) (fname : Bytes)
    → TabledAt k.files (find_unused 6 2 k.files)
    → OnSome (λ k'. Tabled k'.files) (open_ptr ops k ev fname)
unfolding open_ptr
open_ptr-Tabled no_table k ev fname v = tt
open_ptr-Tabled rtc_table k ev fname v = rtc_open-Tabled k.files v (rtc_of k) ev.prev
open_ptr-Tabled dir_table k ev fname v =
    let opened = dir_open-Tabled k.files v k.fs fname in search (OnSome-map, opened)
open_ptr-Tabled file_table k ev fname v =
    let opened = file_open-Tabled k.files v k.fs fname in search (OnSome-map, opened)
open_ptr-Tabled terminal_table k ev fname v = v.0

pub table_of-ne : (type : ℕ) → table_of type ≢ no_table
unfolding table_of
table_of-ne type e = grind arith

set-flags :
    (files : FileArray) (i : ℕ) (f : FileDesc)
    → f.flags ≡ (desc files i).flags
    → (j : ℕ) → (desc (set files i f) j).flags ≡ (desc files j).flags
set-flags files i f e j = elim (ℕ_discrete i j) [
  | yes at ↦ elim (desc-set files i f j) [
    | inl q ↦ ap (λ g. g.flags) q ∙ e ∙ ap (λ n. (desc files n).flags) at
    | inr q ↦ ap (λ g. g.flags) q
  ]
  | no n ↦ ap (λ g. g.flags) (desc-set_ne files i j f n)
]

-- The file array once sys_open_c has chosen the table.
pub chosen-TabledAt :
    (files : FileArray) (ops : FileOps)
    → ops ≢ no_table
    → find_unused 6 2 files < 8
    → Tabled files
    → let i = find_unused 6 2 files in
      let files' = set files i (record (desc files i) { file_op_ptr = ops }) in
      TabledAt files' (find_unused 6 2 files')
chosen-TabledAt files ops t free v =
    let i = find_unused 6 2 files in
    let f : FileDesc = record (desc files i) { file_op_ptr = ops } in
    let first : find_unused 6 2 (set files i f) ≡ i =
      find_unused-flags 6 2 (set files i f) files (set-flags files i f refl) in
    (
      set-Tabled files i f v (λ odd. t),
      rw (first, desc-set_self files i f (omega (arith, v.size))) t,
    )
