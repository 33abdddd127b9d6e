-- ===== src/Process/Refuse.antt =====
-- What sys_execute_c of student-distrib/sys_calls.c refuses.
use linux_based_os.Prelude.{ℕ, ◌+◌, ◌*◌, ◌<◌, ◌≡◌, Bytes, Option, some}
use linux_based_os.Filesys.{Filesys, Dentry, load}
use linux_based_os.Filesys.Dentry.Lookup.{IsSearchable, SameImage}
use linux_based_os.Filesys.File.Open.{IsFirst}
use linux_based_os.Process.{Machine, Locals, Executed, refused}
use linux_based_os.Process.Execute.{program_name}

-- The call returns -1, and at most the buffers of the file system have changed.
abbrev pub Refused : Machine → Option Executed → Type 0
Refused m o = (fs : Filesys) × (o ≡ some (refused (record m { fs = fs }))) × SameImage m.fs fs

module _ (m : Machine) (l : Locals) (ebp : ℕ) (command : Bytes)
    (v : IsSearchable m.fs (program_name l command)) (few : m.process_number < 6) where
  module _ (entry : ℕ) (first : IsFirst m.fs (program_name l command) entry) where
    abbrev inode : ℕ
    inode = load m.fs (64 * entry + 36)
