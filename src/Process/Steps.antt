-- ===== src/Process/Steps.antt =====
-- What the system does from one call to the next: student-distrib/sys_calls.c, with the interrupts
-- of student-distrib/key_driver.c in between.
use linux_based_os.Prelude.{ℕ, ◌+◌, ◌<◌, ◌≤◌, ◌≡◌, Bytes, ℤ, List, Option, some, none, shift}
use linux_based_os.Filesys.{Dentry}
use linux_based_os.Keyboard.Terminal.{press}
use linux_based_os.Syscalls.{Kernel, Events, Called, sys_read, sys_write, sys_open, sys_close}
use linux_based_os.Process.{
  Machine, Locals, Executed, refused, launched, kernel_of, with_kernel, sys_halt, sys_execute,
  overlay, four_mb, put, page_base, pro_idx,
}

-- The frame of the current program, and its change.
abbrev pub page_frame : Machine → ℕ
page_frame m = page_base (m.paging.page_directory pro_idx)

abbrev pub with_page : Machine → Bytes → Machine
with_page m page = record m { frames = put m.frames (page_frame m) page }

-- A call of the current process on its descriptors that returns, a batch of bytes from the
-- keyboard, or what the process does to its own page: from the page and the kernel before to those
-- after. The buffer of a read is in the page, at offset `at`, and the read writes nothing behind
-- the page; of the kernel's memory a read to a buffer elsewhere could change anything. What
-- getargs and vidmap store is a change of the page.
pub data Call (page : Bytes) (k : Kernel) : Bytes → Kernel → Type 0 where
  own : (mem : Bytes) → ((j : ℕ) → four_mb ≤ j → mem j ≡ page j) → Call page k mem k
  read :
      (ev : Events) (fd : ℤ) (at : ℕ) (nbytes : ℤ) {c : Called}
      → sys_read k ev fd (some (shift page at)) nbytes ≡ some c
      → ((j : ℕ) → four_mb ≤ at + j → c.buf j ≡ page (at + j))
      → Call page k (overlay page at c.buf) c.kernel
  read_null :
      (ev : Events) (fd nbytes : ℤ) {c : Called}
      → sys_read k ev fd none nbytes ≡ some c
      → Call page k page c.kernel
  write :
      (ev : Events) (fd : ℤ) (buf : Option Bytes) (nbytes : ℤ) {c : Called}
      → sys_write k ev fd buf nbytes ≡ some c
      → Call page k page c.kernel
  open_file :
      (ev : Events) (junk : Dentry) (filename : Option Bytes) {r : ℤ × Kernel}
      → sys_open k ev junk filename ≡ some r
      → Call page k page r.1
  close_file : (fd : ℤ) {r : ℤ × Kernel} → sys_close k fd ≡ some r → Call page k page r.1
  keys : (inputs : List ℕ) → Call page k page (record k { keyboard = press k.keyboard inputs })

abbrev pub machine_of : Executed → Machine
machine_of (refused m) = m
machine_of (launched regs m) = m

-- One step: a call of sys_execute_c is one where it returns or enters a program, with a command
-- that fits into the array `input` and a program that fits into its page.
pub data Step (m : Machine) : Machine → Type 0 where
  call :
      {page : Bytes} {k : Kernel}
      → Call (m.frames (page_frame m)) (kernel_of m) page k
      → Step m (with_page (with_kernel m k) page)
  execute :
      (l : Locals) (ebp : ℕ) (command : Bytes) {e : Executed}
      → sys_execute m l ebp command ≡ some e
      → Step m (machine_of e)
  halt : (status : ℕ → ℕ) {r : ℤ × Machine} → sys_halt m status ≡ some r → Step m r.1

-- The states that are reached from `boot`.
pub data Reach (boot : Machine) : Machine → Type 0 where
  start : Reach boot boot
  later : {m n : Machine} → Reach boot m → Step m n → Reach boot n

-- A run from one state to another in which more than `depth` processes are there throughout.
pub data Above (depth : ℕ) (m : Machine) : Machine → Type 0 where
  here : Above depth m m
  next : {n o : Machine} → Above depth m n → Step n o → depth < o.process_number → Above depth m o
