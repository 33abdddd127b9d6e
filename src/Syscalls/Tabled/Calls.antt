-- ===== src/Syscalls/Tabled/Calls.antt =====
-- The calls on descriptors of student-distrib/sys_calls.c go through no null table, and keep it so.
use linux_based_os.Prelude.{
  OnSome, OnSome-map_some, OnSome-map, OnSome-bind, OnSome-if, ◌||◌, ◌≡◌, ◌≢◌, inl, inr, refl, ◌∙◌,
  arith, false, Bool-cases, leb, Bytes, ℤ, failure, is_minus_one, set, Option, none, some, is_below,
  exceeds, is_neg, ==→ne,
}
use linux_based_os.Pcb.{
  FileOps, no_table, rtc_table, dir_table, file_table, terminal_table, FileArray, desc, index,
  find_unused,
}
use linux_based_os.Filesys.{Filesys, filetype, Dentry}
use linux_based_os.Filesys.Dentry.{Looked}
use linux_based_os.Filesys.File.{file_close}
use linux_based_os.Filesys.Dir.{dir_close}
use linux_based_os.Rtc.{rtc_close}
use linux_based_os.Keyboard.Terminal.{terminal_close}
use linux_based_os.Syscalls.{
  Kernel, Events, Called, close_ptr, read_ptr, write_ptr, table_of, open_found, sys_open, dentry_of,
  is_closed, bad_fd, sys_read, sys_write, sys_close, checked, call_failed,
}
use linux_based_os.Syscalls.Tabled.{Tabled, cleared-Tabled}
use linux_based_os.Syscalls.Tabled.Read.{file_read-Tabled, dir_read-Tabled}
use linux_based_os.Syscalls.Tabled.Open.{open_ptr-Tabled, table_of-ne, chosen-TabledAt}

module _ (files : FileArray) (v : Tabled files) where
  rtc_close-Tabled : (fd : ℤ) → Tabled (rtc_close files fd).1
  unfolding rtc_close
  rtc_close-Tabled fd = ground (arith, cleared-Tabled files (index fd) v)

  file_close-Tabled : (fs : Filesys) (fd : ℤ) → Tabled (file_close fs files fd).files
  unfolding file_close
  file_close-Tabled fs fd = ground (arith, cleared-Tabled files (index fd) v)

  dir_close-Tabled : (fs : Filesys) (fd : ℤ) → Tabled (dir_close fs files fd).files
  unfolding dir_close
  dir_close-Tabled fs fd = ground (arith, cleared-Tabled files (index fd) v)

  terminal_close-Tabled : (fd : ℤ) → Tabled (terminal_close files fd).1
  unfolding terminal_close
  terminal_close-Tabled fd = ground (arith, cleared-Tabled files (index fd) v)

-- What a call leaves, and that an entry it goes through has a table.
abbrev pub Returns : Option (ℤ × Kernel) → Type 0
Returns o = (r : ℤ × Kernel) × (o ≡ some r) × Tabled r.1.files

pub close_ptr-Returns :
    (ops : FileOps) (k : Kernel) (fd : ℤ)
    → ops ≢ no_table
    → Tabled k.files
    → Returns (close_ptr ops k fd)
unfolding close_ptr
close_ptr-Returns no_table k fd t v = absurd (t refl)
close_ptr-Returns rtc_table k fd t v = (_, refl, rtc_close-Tabled k.files v fd)
close_ptr-Returns dir_table k fd t v = (_, refl, dir_close-Tabled k.files v k.fs fd)
close_ptr-Returns file_table k fd t v = (_, refl, file_close-Tabled k.files v k.fs fd)
close_ptr-Returns terminal_table k fd t v = (_, refl, terminal_close-Tabled k.files v fd)

read_ptr-Tabled :
    (ops : FileOps) (k : Kernel) (ev : Events) (fd : ℤ) (buf : Bytes) (nbytes : ℤ)
    → ops ≡ (desc k.files (index fd)).file_op_ptr
    → ops ≢ no_table
    → Tabled k.files
    → OnSome (λ c. Tabled c.kernel.files) (read_ptr ops k ev fd buf nbytes)
unfolding read_ptr
read_ptr-Tabled no_table k ev fd buf nbytes e t v = tt
read_ptr-Tabled rtc_table k ev fd buf nbytes e t v = search (OnSome-map_some, v)
read_ptr-Tabled dir_table k ev fd buf nbytes e t v =
    let read = dir_read-Tabled k.fs k.files fd buf nbytes (v, λ q. t (e ∙ q)) in
    search (OnSome-map, read)
read_ptr-Tabled file_table k ev fd buf nbytes e t v =
    file_read-Tabled k.fs k.files fd (some buf) nbytes (v, λ q. t (e ∙ q))
read_ptr-Tabled terminal_table k ev fd buf nbytes e t v = search (OnSome-map_some, v)

write_ptr-Returns :
    (ops : FileOps) (k : Kernel) (ev : Events) (fd : ℤ) (buf : Bytes) (nbytes : ℤ)
    → ops ≢ no_table
    → (c : Called) × (write_ptr ops k ev fd buf nbytes ≡ some c) × (c.kernel.files ≡ k.files)
unfolding write_ptr
write_ptr-Returns no_table k ev fd buf nbytes t = absurd (t refl)
write_ptr-Returns rtc_table k ev fd buf nbytes t = (_, refl, refl)
write_ptr-Returns dir_table k ev fd buf nbytes t = (_, refl, refl)
write_ptr-Returns file_table k ev fd buf nbytes t = (_, refl, refl)
write_ptr-Returns terminal_table k ev fd buf nbytes t = (_, refl, refl)

open_found-Tabled :
    (k : Kernel) (ev : Events) (fname : Bytes) (junk : Dentry) (looked : Looked)
    → Tabled k.files
    → OnSome (λ r. Tabled r.1.files) (open_found k ev fname junk looked)
unfolding open_found
open_found-Tabled k ev fname junk looked v = elim (Bool-cases (is_minus_one looked.ret)) [
  | inl e ↦ rw e v
  | inr e ↦ elim (Bool-cases (leb 8 (find_unused 6 2 k.files))) [
    | inl full ↦ rw (e, full) v
    | inr free ↦
        let ops = table_of (filetype (dentry_of looked.dest junk)) in
        let i = find_unused 6 2 k.files in
        let k' : Kernel = record k {
          fs = looked.fs;
          files = set k.files i (record (desc k.files i) { file_op_ptr = ops });
        } in
        let opened =
          open_ptr-Tabled ops k' ev fname
            (chosen-TabledAt k.files ops (table_of-ne _) (ground arith) v) in
        rw (e, free) (search (OnSome-map, opened))
  ]
]

pub sys_open-Tabled :
    (k : Kernel) (ev : Events) (junk : Dentry) (filename : Option Bytes)
    → Tabled k.files
    → OnSome (λ r. Tabled r.1.files) (sys_open k ev junk filename)
unfolding sys_open
sys_open-Tabled k ev junk none v = v
sys_open-Tabled k ev junk (some filename) v =
    let found = λ (looked : Looked). open_found-Tabled k ev filename junk looked v in
    search (OnSome-bind, found)

-- A descriptor that passes the tests has a table.
passed :
    (k : Kernel) (fd : ℤ)
    → is_closed k fd ≡ false
    → Tabled k.files
    → (desc k.files (index fd)).file_op_ptr ≢ no_table
passed k fd e v = v.has_table (index fd) (==→ne _ 0 e)

pub sys_read-Tabled :
    (k : Kernel) (ev : Events) (fd : ℤ) (buf : Option Bytes) (nbytes : ℤ)
    → Tabled k.files
    → OnSome (λ c. Tabled c.kernel.files) (sys_read k ev fd buf nbytes)
unfolding sys_read checked
sys_read-Tabled k ev fd none nbytes v = v
sys_read-Tabled k ev fd (some buf) nbytes v = elim (Bool-cases (is_closed k fd)) [
  | inl e ↦ rw e (search (OnSome-if, v))
  | inr e ↦
      let read = read_ptr-Tabled _ k ev fd buf nbytes refl (passed k fd e v) v in
      rw e (search (OnSome-if, v, read))
]

-- sys_write_c and sys_close_c always return.
pub sys_write-Returns :
    (k : Kernel) (ev : Events) (fd : ℤ) (buf : Option Bytes) (nbytes : ℤ)
    → Tabled k.files
    → (c : Called) × (sys_write k ev fd buf nbytes ≡ some c) × (c.kernel.files ≡ k.files)
unfolding sys_write checked
sys_write-Returns k ev fd none nbytes v = (_, refl, refl)
sys_write-Returns k ev fd (some buf) nbytes v = elim (Bool-cases (bad_fd fd)) [
  | inl e1 ↦ (call_failed buf k, rw e1 refl, refl)
  | inr e1 ↦ elim (Bool-cases (is_neg nbytes)) [
    | inl e2 ↦ (call_failed buf k, rw (e1, e2) refl, refl)
    | inr e2 ↦ elim (Bool-cases (is_closed k fd)) [
      | inl e3 ↦ (call_failed buf k, rw (e1, e2, e3) refl, refl)
      | inr e3 ↦
          let (c, e, same) = write_ptr-Returns _ k ev fd buf nbytes (passed k fd e3 v) in
          (c, rw (e1, e2, e3) e, same)
    ]
  ]
]

pub sys_close-Returns : (k : Kernel) (fd : ℤ) → Tabled k.files → Returns (sys_close k fd)
unfolding sys_close
sys_close-Returns k fd v = elim (Bool-cases (is_below fd 2 || exceeds fd 7)) [
  | inl e1 ↦ ((failure, k), rw e1 refl, v)
  | inr e1 ↦ elim (Bool-cases (is_closed k fd)) [
    | inl e2 ↦ ((failure, k), rw (e1, e2) refl, v)
    | inr e2 ↦
        let (r, e, w) = close_ptr-Returns _ k fd (passed k fd e2 v) v in (r, rw (e1, e2) e, w)
  ]
]
