-- ===== src/Programs/Files.antt =====
-- syscalls/ece391cat.c and syscalls/ece391ls.c. `buf` is what the buffer holds before it is
-- written.
use linux_based_os.Prelude.{
  ℕ, zero, suc, ◌+◌, not, if◌then◌else◌, Bytes, update, ℤ, pos, is_minus_one, none,
}
use linux_based_os.Filesys.Dentry.{is_zero}
use linux_based_os.Programs.{Program, ◌>>=◌, ◌>>◌, return, Os, count}
use linux_based_os.Programs.Support.{text, ece391_fdputs}

module _ {S : Type 0} (os : Os S) where
  -- A message on the terminal, and the result of `main`.
  abbrev pub complain : Bytes → ℤ → Program S ℤ
  complain message ret = do ece391_fdputs os (pos 1) message; return ret

  -- The loop of cat's main; each round reads at least one byte.
  unfoldable pub cat_loop : ℕ → ℤ → Bytes → Program S ℤ
  cat_loop zero fd buf = λ s. none
  cat_loop (suc fuel) fd buf = do
    r ← os.ece391_read fd buf (pos 1024)
    let rest = cat_loop fuel fd r.1
    let written = λ (w : ℤ). if is_minus_one w then return (pos 3) else rest
    if is_zero r.0
        then return (pos 0)
        else if is_minus_one r.0
        then complain (text "file read failed\n") (pos 3)
        else os.ece391_write (pos 1) r.1 r.0 >>= written

  unfoldable pub cat_main : ℕ → Bytes → Program S ℤ
  cat_main fuel buf = do
    r ← os.ece391_getargs buf (pos 1024)
    let opened = λ (fd : ℤ).
        if is_minus_one fd then complain (text "file not found\n") (pos 2) else cat_loop fuel fd r.1
    if not (is_zero r.0)
        then complain (text "could not read arguments\n") (pos 3)
        else os.ece391_open r.1 >>= opened

  unfoldable pub ls_loop : ℕ → ℤ → Bytes → Program S ℤ
  ls_loop zero fd buf = λ s. none
  ls_loop (suc fuel) fd buf = do
    r ← os.ece391_read fd buf (pos 32)
    let line = update r.1 (count r.0) b'\n'
    let rest = ls_loop fuel fd line
    let written = λ (w : ℤ). if is_minus_one w then return (pos 3) else rest
    if is_zero r.0
        then return (pos 0)
        else if is_minus_one r.0
        then complain (text "directory entry read failed\n") (pos 3)
        else os.ece391_write (pos 1) line (pos (count r.0 + 1)) >>= written

  unfoldable pub ls_main : ℕ → Bytes → Program S ℤ
  ls_main fuel buf = do
    fd ← os.ece391_open (text ".")
    if is_minus_one fd
        then complain (text "directory open failed\n") (pos 2)
        else ls_loop fuel fd buf
