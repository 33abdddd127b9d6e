-- ===== src/Programs/OnKernel.antt =====
-- The calls of syscalls/ece391syscall.h as the kernel of student-distrib carries them out.
pub mod Cat
pub mod Ls
use linux_based_os.Prelude.{
  bind, map_some, ℕ, zero, suc, ◌+◌, ◌-◌, ◌%◌, ◌^◌, ◌<◌, ◌≤◌, ◌≡◌, ◌≢◌, refl, ap, sym, ◌∙◌, arith,
  min, inl, inr, Bool-cases, true, false, ◌==◌, if◌then◌else◌, Bytes, ℤ, pos, length, List, set,
  Option, none, some, ne→==, ap₂, OnSome,
}
use mathlib.Core.Path.{subst}
use linux_based_os.Pcb.{FileArray, FileDesc, desc, terminal_table, file_table}
use linux_based_os.Filesys.{Filesys, Dentry}
use linux_based_os.Filesys.Data.Contents.{file_size, file_byte}
use linux_based_os.Filesys.File.{file_read}
use linux_based_os.Filesys.File.Read.{IsOpen, IsRead, file_read-IsRead}
use linux_based_os.Screen.{Screen}
use linux_based_os.Keyboard.Terminal.{terminal_write, write_loop}
use linux_based_os.Paging.{Paging}
use linux_based_os.Syscalls.{
  Kernel, Events, Called, bad_fd, is_closed, checked, read_ptr, write_ptr, sys_read, sys_write,
  sys_open, sys_close,
}
use linux_based_os.Syscalls.Args.{sys_getargs, sys_vidmap}
use linux_based_os.Syscalls.Tabled.Same.{file_read-SameTable}
use linux_based_os.Programs.{Program, Os}
use linux_based_os.Programs.Terminal.{IsTerminal, IsReader}
use linux_based_os.Filesys.Data.{DataRead}

-- What the calls of a process depend on besides the kernel's state: the events during its calls,
-- its input, what the stack of a call of open holds, the page tables, and the calls that other
-- programs or the assembly code carry out.
pub record Task : Type 0 where
  pub events : Events
  pub input : Bytes
  pub junk : Dentry
  pub table_0 : ℕ
  pub table_1 : ℕ
  pub elsewhere : ℕ → ℕ → ℕ
  pub paging : Paging
  pub execute : Bytes → Program Kernel ℤ
  pub syscall : ℤ → Program Kernel ℤ

abbrev pub kernel_os : Task → Os Kernel
kernel_os q = record {
  ece391_read = λ fd buf nbytes k.
      map_some (λ c. ((c.ret, c.buf), c.kernel)) (sys_read k q.events fd (some buf) nbytes);
  ece391_write = λ fd buf nbytes k.
      map_some (λ c. (c.ret, c.kernel)) (sys_write k q.events fd (some buf) nbytes);
  ece391_open = λ filename k. sys_open k q.events q.junk (some filename);
  ece391_close = λ fd k. sys_close k fd;
  ece391_getargs = λ buf nbytes k. map_some (λ r. (r, k)) (sys_getargs q.input buf nbytes);
  ece391_vidmap = λ screen_start k.
      some ((sys_vidmap q.table_0 q.table_1 q.elsewhere q.paging screen_start).0, k);
  ece391_execute = q.execute;
  call_sys = q.syscall;
}

-- Standard output is the terminal, in use.
pub record HasStdout (k : Kernel) : Type 0 where
  pub size : length k.files ≡ 8
  pub in_use : (desc k.files 1).flags % 2 ≡ 1
  pub terminal : (desc k.files 1).file_op_ptr ≡ terminal_table

abbrev pub screen_of : Kernel → Screen
screen_of k = k.keyboard.screen

-- The kernel behind a write to the terminal.
abbrev pub written : Kernel → ℕ → Bytes → Kernel
written k n buf = record k {
  keyboard = record k.keyboard { screen = write_loop n 0 buf k.keyboard.screen; interrupts = true };
}

pub write_eq :
    (q : Task) (k : Kernel) (n : ℕ) (buf : Bytes)
    → HasStdout k
    → (kernel_os q).ece391_write (pos 1) buf (pos n) k ≡ some (pos n, written k n buf)
unfolding sys_write checked write_ptr terminal_write
write_eq q k n buf ready =
    let in_use : is_closed k (pos 1) ≡ false = ne→== _ 0 (omega (arith, ready.in_use)) in
    rw (in_use, ready.terminal) refl

pub kernel_os-IsTerminal : (q : Task) → IsTerminal (kernel_os q) HasStdout screen_of
kernel_os-IsTerminal q = record {
  writes = λ k buf n ready small. (
    written k n buf,
    write_eq q k n buf ready,
    record { size = ready.size; in_use = ready.in_use; terminal = ready.terminal },
    refl,
  );
}

-- Descriptor `fd` is at position `p` of the file of inode `inode`.
pub record IsFileAt (fs : Filesys) (fd inode p : ℕ) (k : Kernel) : Type 0 where
  pub image : k.fs ≡ fs
  pub opened : IsOpen fs (desc k.files fd)
  pub file_ops : (desc k.files fd).file_op_ptr ≡ file_table
  pub file : (desc k.files fd).inode ≡ inode
  pub position : (desc k.files fd).file_pos ≡ p

module _ (q : Task) (fs : Filesys) (fd inode : ℕ) (low : 2 ≤ fd) (high : fd < 8) where
  sys_read-file :
      (k : Kernel) (n p : ℕ) (buf : Bytes)
      → IsFileAt fs fd inode p k
      → let r = file_read k.fs k.files (pos fd) (some buf) (pos n) in
        sys_read k q.events (pos fd) (some buf) (pos n)
        ≡ some (record { ret = r.ret; buf = r.buf; kernel = record k { files = r.files } })
  unfolding sys_read checked read_ptr
  sys_read-file k n p buf at =
      let good : bad_fd (pos fd) ≡ false = ground (arith, low, high) in
      let in_use : is_closed k (pos fd) ≡ false = ne→== _ 0 (omega (arith, at.opened.is_regular)) in
      rw (good, in_use, at.file_ops) refl

  module _ (k : Kernel) (n p : ℕ) (buf : Bytes) (ready : HasStdout k)
      (at : IsFileAt fs fd inode p k) (small : n < 2 ^ 31) where
    abbrev r : DataRead
    r = file_read fs k.files (pos fd) (some buf) (pos n)

    abbrev after : Kernel
    after = record k { files = r.files }

    read_eq :
        sys_read k q.events (pos fd) (some buf) (pos n)
        ≡ some (record { ret = r.ret; buf = r.buf; kernel = after })
    read_eq =
        sys_read-file k n p buf at
        ∙ ap
            (λ g.
              let o = file_read g k.files (pos fd) (some buf) (pos n) in
              some (record { ret = o.ret; buf = o.buf; kernel = record k { files = o.files } }))
            at.image

    done : IsRead fs k.files fd n buf r
    done = file_read-IsRead fs k.files fd n buf (omega (arith, high, ready.size)) at.opened small

    left_eq :
        min n (file_size fs (desc k.files fd).inode - (desc k.files fd).file_pos)
        ≡ min n (file_size fs inode - p)
    left_eq = ap₂ (λ i o. min n (file_size fs i - o)) at.file at.position

    after-HasStdout : HasStdout after
    after-HasStdout =
        let same = done.others 1 (omega (arith, low)) in
        record {
          size = done.size ∙ ready.size;
          in_use = ap (λ f. f.flags % 2) same ∙ ready.in_use;
          terminal = ap (λ f. f.file_op_ptr) same ∙ ready.terminal;
        }

    after-IsFileAt : IsFileAt fs fd inode (p + min n (file_size fs inode - p)) after
    after-IsFileAt = record {
      image = at.image;
      opened = done.still_open;
      file_ops = file_read-SameTable fs k.files (pos fd) buf (pos n) ∙ at.file_ops;
      file = done.same_inode ∙ at.file;
      position = done.moved ∙ ap₂ (λ a b. a + b) at.position left_eq;
    }

    read_bytes : (j : ℕ) → j < min n (file_size fs inode - p) → r.buf j ≡ file_byte fs inode (p + j)
    read_bytes j h =
        done.delivers.bytes j (omega (arith, left_eq, h))
        ∙ ap₂ (λ i o. file_byte fs i (o + j)) at.file at.position

  pub kernel_os-IsReader :
      IsReader
        (kernel_os q)
        HasStdout
        screen_of
        (pos fd)
        (IsFileAt fs fd inode)
        (file_size fs inode)
        (file_byte fs inode)
  kernel_os-IsReader = record {
    reads = λ k p n buf ready at small. (
      (r k n p buf ready at small).buf,
      after k n p buf ready at small,
      rw (read_eq k n p buf ready at small) (
          ap (λ c. some ((c, (r k n p buf ready at small).buf), after k n p buf ready at small))
            ((done k n p buf ready at small).delivers.ret
              ∙ ap pos (left_eq k n p buf ready at small))),
      after-HasStdout k n p buf ready at small,
      after-IsFileAt k n p buf ready at small,
      refl,
      read_bytes k n p buf ready at small,
    );
    kept = λ k k' p n buf r ready at small e.
        subst (OnSome (λ (w : ℤ × Kernel). IsFileAt fs fd inode p w.1))
          (sym (write_eq q k n buf ready) ∙ e)
          (record {
            image = at.image;
            opened = at.opened;
            file_ops = at.file_ops;
            file = at.file;
            position = at.position;
          });
  }
