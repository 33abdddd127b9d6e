-- ===== src/Programs/OnKernel/Cat.antt =====
-- syscalls/ece391cat.c on the kernel of student-distrib: from the command to the screen.
use linux_based_os.Prelude.{ℕ, ◌+◌, ◌*◌, Bytes}
use linux_based_os.Filesys.{Filesys, load}
use linux_based_os.Syscalls.{Kernel}
use linux_based_os.Syscalls.Open.{IsFileNamed, slot}
use linux_based_os.Programs.OnKernel.{HasStdout}

module _ (k : Kernel) (name : Bytes) (entry : ℕ) (v : IsFileNamed k name entry)
    (out : HasStdout k) where
  abbrev inode : ℕ
  inode = load k.fs (64 * entry + 36)

  abbrev fd : ℕ
  fd = slot k name entry v
