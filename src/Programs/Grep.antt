-- ===== src/Programs/Grep.antt =====
-- syscalls/ece391grep.c. `buf` and `bytes` are what the buffers hold before they are written.
use linux_based_os.Prelude.{
  ℕ, zero, suc, ◌+◌, ◌-◌, Bool, not, ◌&&◌, ltb, leb, ◌==◌, if◌then◌else◌, Bytes, byte_at, update,
  shift, ℤ, pos, failure, is_minus_one, none, true, false,
}
use linux_based_os.Filesys.Dentry.{is_zero}
use linux_based_os.Programs.{Program, ◌>>=◌, ◌>>◌, return, lift, Os, count}
use linux_based_os.Programs.Support.{
  text, ece391_fdputs, ece391_strlen, ece391_strcpy, ece391_strncmp,
}
use linux_based_os.Programs.Files.{complain}

-- The end of the line, or of the bytes; at most `left` places are left.
unfoldable pub find_newline : ℕ → Bytes → ℕ → ℕ
find_newline zero bytes line_end = line_end
find_newline (suc left) bytes line_end =
    let rest = find_newline left bytes (line_end + 1) in
    if not (b'\n' == byte_at bytes line_end) then rest else line_end

-- Whether one of `left` places from `check` on begins with `s`.
unfoldable pub line_matches : ℕ → Bytes → ℕ → Bytes → ℕ → Bool
line_matches zero s s_len bytes check = false
line_matches (suc left) s s_len bytes check =
    let rest = line_matches left s s_len bytes (check + 1) in
    if (byte_at s 0 == byte_at bytes check) && is_zero (ece391_strncmp (shift bytes check) s s_len)
    then true
    else rest

module _ {S : Type 0} (os : Os S) where
  -- The line that matches, behind the name of the file.
  abbrev show_line : Bytes → Bytes → Program S (Unit {0})
  show_line fname line = do
    ece391_fdputs os (pos 1) fname
    ece391_fdputs os (pos 1) (text ":")
    ece391_fdputs os (pos 1) line
    ece391_fdputs os (pos 1) (text "\n")

  -- The loop over the lines in the buffer: the buffer and `last` when it ends. Each round moves
  -- `line_start` on.
  unfoldable pub lines_loop : ℕ → Bytes → Bytes → ℕ → ℕ → Bytes → ℕ → ℕ → Program S (Bytes × ℕ)
  lines_loop zero s fname s_len cnt bytes line_start last = λ st. none
  lines_loop (suc fuel) s fname s_len cnt bytes line_start last =
      let line_end = find_newline (last - line_start) bytes line_start in
      let ended = update bytes line_end 0 in
      let rest = lines_loop fuel s fname s_len cnt ended (line_end + 1) last in
      let go_on = if leb last (line_end + 1) then return (ended, 0) else rest in
      let shown = show_line fname (shift ended line_start) >>= λ _. go_on in
      if not (b'\n' == byte_at bytes line_end) && not (0 == cnt) && not (line_start == 0)
      then lift (ece391_strcpy ended (shift ended line_start))
        >>= (λ moved. return (moved, last - line_start))
      else if line_matches (line_end - line_start) s s_len ended line_start
      then shown
      else go_on

  -- The loop that reads the file.
  unfoldable pub read_loop : ℕ → Bytes → Bytes → ℕ → ℤ → Bytes → ℕ → Program S ℤ
  read_loop zero s fname s_len fd bytes last = λ st. none
  read_loop (suc fuel) s fname s_len fd bytes last = do
    r ← os.ece391_read fd (shift bytes last) (pos (1024 - last))
    let cnt = count r.0
    let filled = λ (j : ℕ). if ltb j last then bytes j else r.1 (j - last)
    let go_on = λ (l : Bytes × ℕ).
        if cnt == 0 then return (pos 0) else read_loop fuel s fname s_len fd l.0 l.1
    if is_minus_one r.0
        then complain os (text "file read failed\n") failure
        else lines_loop 1026 s fname s_len cnt filled 0 (last + cnt) >>= go_on

  unfoldable pub do_one_file : ℕ → Bytes → Bytes → Bytes → Program S ℤ
  do_one_file fuel s fname bytes = do
    s_len ← lift (ece391_strlen s)
    fd ← os.ece391_open fname
    let closed = λ (c : ℤ).
        if is_minus_one c then complain os (text "file close failed\n") failure else return (pos 0)
    let searched = λ (r : ℤ). if is_zero r then os.ece391_close fd >>= closed else return failure
    if is_minus_one fd
        then complain os (text "file open failed\n") failure
        else read_loop fuel s fname s_len fd bytes 0 >>= searched

  -- The loop over the entries of the directory.
  unfoldable pub grep_loop : ℕ → ℕ → Bytes → ℤ → Bytes → Bytes → Program S ℤ
  grep_loop zero inner search_for fd buf bytes = λ st. none
  grep_loop (suc fuel) inner search_for fd buf bytes = do
    r ← os.ece391_read fd buf (pos 32)
    let name = update r.1 (count r.0) 0
    let hidden = grep_loop fuel inner search_for fd r.1 bytes
    let rest = grep_loop fuel inner search_for fd name bytes
    let done = λ (o : ℤ). if is_zero o then rest else return (pos 3)
    if is_zero r.0
        then return (pos 0)
        else if is_minus_one r.0
        then complain os (text "directory entry read failed\n") (pos 3)
        else if b'.' == byte_at r.1 0
        then hidden
        else do_one_file inner search_for name bytes >>= done

  unfoldable pub grep_main : ℕ → ℕ → Bytes → Bytes → Bytes → Program S ℤ
  grep_main fuel inner search_for buf bytes = do
    r ← os.ece391_getargs search_for (pos 1024)
    let opened = λ (fd : ℤ).
        if is_minus_one fd
        then complain os (text "directory open failed\n") (pos 2)
        else grep_loop fuel inner r.1 fd buf bytes
    if not (is_zero r.0)
        then complain os (text "could not read argument\n") (pos 3)
        else os.ece391_open (text ".") >>= opened
