-- ===== src/Syscalls.antt =====
-- The system calls of student-distrib/sys_calls.c that work on descriptors, and the small ones.
-- `none` is a call that never returns, or that calls through a null table.
pub mod Args
pub mod Getargs
pub mod Image
pub mod Lookup
pub mod Open
pub mod OpenRead
pub mod Vidmap
pub mod Tabled
mod Tests
use linux_based_os.Prelude.{
  bind, map_some, ℕ, zero, suc, ◌+◌, ◌-◌, ◌*◌, ◌/◌, ◌%◌, ◌^◌, ◌≤◌, Bool, true, false, not, ◌||◌,
  ltb, leb, ◌==◌, if◌then◌else◌, Bytes, ℤ, pos, failure, is_neg, exceeds, is_below, is_minus_one,
  List, Option, none, some, set, bit_or,
}
use linux_based_os.Pcb.{
  FileOps, no_table, rtc_table, dir_table, file_table, terminal_table, FileDesc, FileArray, desc,
  index, find_unused,
}
use linux_based_os.Filesys.{Filesys, Dentry, filetype, rtc_file, dir_file, reg_file}
use linux_based_os.Filesys.Dentry.{
  Dest, null, global_open, global_read, local, Looked, read_dentry_by_name,
}
use linux_based_os.Filesys.File.{Opened, file_read, file_write, file_open, file_close}
use linux_based_os.Filesys.Dir.{dir_read, dir_write, dir_open, dir_close}
use linux_based_os.Keyboard.{Keyboard}
use linux_based_os.Keyboard.Terminal.{terminal_open, terminal_close, terminal_read, terminal_write}
use linux_based_os.Rtc.{Rtc, rtc_open, rtc_close, rtc_read, rtc_write}
use linux_based_os.Paging.{Paging, get_page_table_entry, user_vmem, vid_addr}

-- The state of the kernel that the calls work on: `files` is the file array of the current process.
pub record Kernel : Type 0 where
  pub fs : Filesys
  pub files : FileArray
  pub keyboard : Keyboard
  pub rtc_interrupt : ℕ

-- What the devices do during a call: the batches of bytes from the keyboard, the interrupts of the
-- clock, and the byte that its register A holds.
pub record Events : Type 0 where
  pub batches : List (List ℕ)
  pub ticks : List Bool
  pub prev : ℕ

-- The clock's driver shares the interrupt controllers and the interrupt flag with the keyboard's.
abbrev pub rtc_of : Kernel → Rtc
rtc_of k = record {
  rtc_interrupt = k.rtc_interrupt;
  pic = k.keyboard.pic;
  interrupts = k.keyboard.interrupts;
}

abbrev pub with_rtc : Kernel → Rtc → Kernel
with_rtc k r = record k {
  rtc_interrupt = r.rtc_interrupt;
  keyboard = record k.keyboard { pic = r.pic; interrupts = r.interrupts };
}

-- What a call leaves: its result, the caller's buffer and the kernel.
pub record Called : Type 0 where
  pub ret : ℤ
  pub buf : Bytes
  pub kernel : Kernel

abbrev pub call_failed : Bytes → Kernel → Called
call_failed buf k = record { ret = failure; buf = buf; kernel = k }

-- The read_ptr of each table.
unfoldable pub read_ptr : FileOps → Kernel → Events → ℤ → Bytes → ℤ → Option Called
read_ptr no_table k ev fd buf nbytes = none
read_ptr rtc_table k ev fd buf nbytes =
    map_some (λ r. record { ret = r.0; buf = buf; kernel = with_rtc k r.1 })
      (rtc_read (rtc_of k) ev.ticks)
read_ptr dir_table k ev fd buf nbytes =
    map_some
      (λ r. record { ret = r.ret; buf = r.buf; kernel = record k { fs = r.fs; files = r.files } })
      (dir_read k.fs k.files fd (some buf) nbytes)
read_ptr file_table k ev fd buf nbytes =
    let r = file_read k.fs k.files fd (some buf) nbytes in
    some (record { ret = r.ret; buf = r.buf; kernel = record k { files = r.files } })
read_ptr terminal_table k ev fd buf nbytes =
    map_some
      (λ r. record { ret = r.ret; buf = r.buffer; kernel = record k { keyboard = r.keyboard } })
      (terminal_read k.keyboard fd buf nbytes ev.batches)

-- The write_ptr of each table; a buffer is only read.
unfoldable pub write_ptr : FileOps → Kernel → Events → ℤ → Bytes → ℤ → Option Called
write_ptr no_table k ev fd buf nbytes = none
write_ptr rtc_table k ev fd buf nbytes =
    let r = rtc_write (rtc_of k) fd buf nbytes ev.prev in
    some (record { ret = r.0; buf = buf; kernel = with_rtc k r.1 })
write_ptr dir_table k ev fd buf nbytes =
    some (record { ret = dir_write fd (some buf) nbytes; buf = buf; kernel = k })
write_ptr file_table k ev fd buf nbytes =
    some (record { ret = file_write fd (some buf) nbytes; buf = buf; kernel = k })
write_ptr terminal_table k ev fd buf nbytes =
    let r = terminal_write k.keyboard fd buf nbytes in
    some (record { ret = r.0; buf = buf; kernel = record k { keyboard = r.1 } })

abbrev pub bad_fd : ℤ → Bool
bad_fd fd = is_neg fd || exceeds fd 7

abbrev pub is_closed : Kernel → ℤ → Bool
is_closed k fd = (desc k.files (index fd)).flags % 2 == 0

-- The tests that sys_read_c and sys_write_c begin with, and the call through the table.
unfoldable pub checked :
    (FileOps → Kernel → Events → ℤ → Bytes → ℤ → Option Called)
    → Kernel
    → Events
    → ℤ
    → Option Bytes
    → ℤ
    → Option Called
checked f k ev fd none nbytes = some (call_failed (λ j. 0) k)
checked f k ev fd (some buf) nbytes =
    if bad_fd fd
    then some (call_failed buf k)
    else if is_neg nbytes
    then some (call_failed buf k)
    else if is_closed k fd
    then some (call_failed buf k)
    else f (desc k.files (index fd)).file_op_ptr k ev fd buf nbytes

unfoldable pub sys_read : Kernel → Events → ℤ → Option Bytes → ℤ → Option Called
sys_read k ev fd buf nbytes = checked read_ptr k ev fd buf nbytes

unfoldable pub sys_write : Kernel → Events → ℤ → Option Bytes → ℤ → Option Called
sys_write k ev fd buf nbytes = checked write_ptr k ev fd buf nbytes

-- The open_ptr of each table. Its result is not looked at.
unfoldable pub open_ptr : FileOps → Kernel → Events → Bytes → Option Kernel
open_ptr no_table k ev filename = none
open_ptr rtc_table k ev filename =
    let r = rtc_open (rtc_of k) k.files ev.prev in
    some (with_rtc (record k { files = r.files }) r.rtc)
open_ptr dir_table k ev filename =
    map_some (λ o. record k { fs = o.fs; files = o.files }) (dir_open k.fs k.files (some filename))
open_ptr file_table k ev filename =
    map_some (λ o. record k { fs = o.fs; files = o.files }) (file_open k.fs k.files (some filename))
open_ptr terminal_table k ev filename =
    some (record k { keyboard = (terminal_open k.keyboard filename).1 })

-- The table for a file type.
unfoldable pub table_of : ℕ → FileOps
table_of type =
    if type == rtc_file
    then rtc_table
    else if type == dir_file
    then dir_table
    else if type == reg_file
    then file_table
    else terminal_table

abbrev pub dentry_of : Dest → Dentry → Dentry
dentry_of null junk = junk
dentry_of global_open junk = junk
dentry_of global_read junk = junk
dentry_of (local d) junk = d

-- sys_open_c, once read_dentry_by_name has returned.
unfoldable pub open_found : Kernel → Events → Bytes → Dentry → Looked → Option (ℤ × Kernel)
open_found k ev filename junk looked =
    let i = find_unused 6 2 k.files in
    let ops = table_of (filetype (dentry_of looked.dest junk)) in
    if is_minus_one looked.ret
    then some (failure, record k { fs = looked.fs })
    else if leb 8 i
    then some (failure, record k { fs = looked.fs })
    else map_some (λ k'. (pos i, k'))
        (open_ptr ops
          (record k {
            fs = looked.fs;
            files = set k.files i (record (desc k.files i) { file_op_ptr = ops });
          })
          ev filename)

-- `junk` is what the variable `dentry` holds on the stack.
unfoldable pub sys_open : Kernel → Events → Dentry → Option Bytes → Option (ℤ × Kernel)
sys_open k ev junk none = some (failure, k)
sys_open k ev junk (some filename) =
    bind (read_dentry_by_name k.fs (some filename) (local junk)) (open_found k ev filename junk)

-- The close_ptr of each table.
unfoldable pub close_ptr : FileOps → Kernel → ℤ → Option (ℤ × Kernel)
close_ptr no_table k fd = none
close_ptr rtc_table k fd = let r = rtc_close k.files fd in some (r.0, record k { files = r.1 })
close_ptr dir_table k fd =
    let o = dir_close k.fs k.files fd in some (o.ret, record k { fs = o.fs; files = o.files })
close_ptr file_table k fd =
    let o = file_close k.fs k.files fd in some (o.ret, record k { fs = o.fs; files = o.files })
close_ptr terminal_table k fd =
    let r = terminal_close k.files fd in some (r.0, record k { files = r.1 })

unfoldable pub sys_close : Kernel → ℤ → Option (ℤ × Kernel)
sys_close k fd =
    if is_below fd 2 || exceeds fd 7
    then some (failure, k)
    else if is_closed k fd
    then some (failure, k)
    else close_ptr (desc k.files (index fd)).file_op_ptr k fd
