-- ===== src/Syscalls/OpenRead.antt =====
-- sys_open_c followed by sys_read_c, student-distrib/sys_calls.c, on a regular file.
use linux_based_os.Prelude.{
  ℕ, ◌+◌, ◌-◌, ◌*◌, ◌%◌, ◌^◌, ◌<◌, ◌≡◌, refl, ap, sym, ◌∙◌, arith, false, ◌==◌, Bytes, pos, some,
  min, length,
}
use mathlib.Core.Path.{subst}
use linux_based_os.Pcb.{FileArray, desc, find_unused}
use linux_based_os.Filesys.{Dentry, load}
use linux_based_os.Filesys.Data.Read.{Delivers}
use linux_based_os.Filesys.Data.Contents.{file_size, file_byte}
use linux_based_os.Filesys.File.{file_read}
use linux_based_os.Filesys.File.Open.{fresh-IsOpen}
use linux_based_os.Filesys.File.Read.{IsOpen, file_read-IsRead}
use linux_based_os.Syscalls.{
  bad_fd, is_closed, Kernel, Events, Called, sys_open, sys_read, checked, read_ptr,
}
use linux_based_os.Syscalls.Image.{buffers, IsOpen-buffers, Delivers-buffers, file_size-buffers}
use linux_based_os.Syscalls.Open.{
  IsFileNamed, slot, sys_open-IsOpened, new_desc, desc-new, new_size, image_of,
}

module _ (k : Kernel) (fname : Bytes) (entry : ℕ) (v : IsFileNamed k fname entry) where
  abbrev file_inode : ℕ
  file_inode = load k.fs (64 * entry + 36)

  new_desc-IsOpen : IsOpen k.fs (new_desc k fname entry v)
  new_desc-IsOpen = fresh-IsOpen k.fs entry (new_desc k fname entry v) v.known v.well_formed

  -- The read of a new descriptor, in a state with the same image.
  read_new :
      (a b : Dentry) (c : Bytes) (files : FileArray) (fd n : ℕ) (buf : Bytes)
      → fd < length files
      → desc files fd ≡ new_desc k fname entry v
      → n < 2 ^ 31
      → Delivers k.fs file_inode 0
          (min n (file_size k.fs file_inode))
          buf
          (file_read (buffers k.fs a b c) files (pos fd) (some buf) (pos n))
  read_new a b c files fd n buf present e small =
      let fs' = buffers k.fs a b c in
      let is_open : IsOpen fs' (desc files fd) =
        rw e (IsOpen-buffers k.fs a b c (new_desc k fname entry v) new_desc-IsOpen) in
      let done = file_read-IsRead fs' files fd n buf present is_open small in
      let d = Delivers-buffers k.fs a b c _ _ _ buf _ done.delivers in
      let r = file_read fs' files (pos fd) (some buf) (pos n) in
      let at_new =
        subst
          (λ f. Delivers k.fs f.inode f.file_pos (min n (file_size fs' f.inode - f.file_pos)) buf r)
          e d in
      let count : min n (file_size fs' file_inode - 0) ≡ min n (file_size k.fs file_inode) =
        omega (arith, file_size-buffers k.fs a b c file_inode) in
      subst (λ q. Delivers k.fs file_inode 0 q buf r) count at_new

  sys_read-eq :
      (k' : Kernel) (ev : Events) (n : ℕ) (buf : Bytes)
      → desc k'.files (slot k fname entry v) ≡ new_desc k fname entry v
      → let r = file_read k'.fs k'.files (pos (slot k fname entry v)) (some buf) (pos n) in
        sys_read k' ev (pos (slot k fname entry v)) (some buf) (pos n)
        ≡ some (record { ret = r.ret; buf = r.buf; kernel = record k' { files = r.files } })
  unfolding sys_read checked read_ptr
  sys_read-eq k' ev n buf e =
      let fd_good : bad_fd (pos (slot k fname entry v)) ≡ false = ground (arith, v.free) in
      let open_fd : is_closed k' (pos (slot k fname entry v)) ≡ false =
        ap (λ f. f.flags % 2 == 0) e in
      rw (fd_good, open_fd, ap (λ f. f.file_op_ptr) e) refl

  -- A program that opens a regular file of the image by its name gets the first free descriptor,
  -- and a read of `n` bytes from it delivers the first bytes of the file, as many as asked for or
  -- as the file has, and returns their number.
  pub sys_open_read-Delivers :
      (ev : Events) (junk : Dentry)
      → (k' : Kernel) × (sys_open k ev junk (some fname) ≡ some (pos (find_unused 6 2 k.files), k'))
        × ((ev' : Events) (n : ℕ) (buf : Bytes)
            → n < 2 ^ 31
            → (out : Called) × (sys_read k' ev' (pos (find_unused 6 2 k.files)) (some buf) (pos n)
                ≡ some out)
              × (out.ret ≡ pos (min n (file_size k.fs file_inode)))
              × ((j : ℕ)
                  → j < min n (file_size k.fs file_inode)
                  → out.buf j ≡ file_byte k.fs file_inode j))
  sys_open_read-Delivers ev junk =
      let (k', e, o) = sys_open-IsOpened k fname entry v ev junk in
      let new = desc-new k fname entry v k' o in
      let present : slot k fname entry v < length k'.files =
        omega (arith, v.free, new_size k fname entry v k' o) in
      (
        k',
        e,
        λ ev' n buf small.
            let d =
              subst
                (λ fs.
                  Delivers k.fs file_inode 0 (min n (file_size k.fs file_inode)) buf
                    (file_read fs k'.files (pos (slot k fname entry v)) (some buf) (pos n)))
                (sym (image_of k fname entry v k' o))
                (read_new k'.fs.open_dentry k'.fs.read_dentry k'.fs.filename_buf k'.files
                  (slot k fname entry v) n buf present new small) in
            (
              _,
              sys_read-eq k' ev' n buf new,
              d.ret,
              λ j p. d.bytes j p ∙ ap (file_byte k.fs file_inode) (omega arith),
            ),
      )
