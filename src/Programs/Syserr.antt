-- ===== src/Programs/Syserr.antt =====
-- syscalls/ece391syserr.c, the tests of the calls on bad arguments. `buf` is what the buffer holds
-- before it is written.
pub mod Passes
use linux_based_os.Prelude.{
  ℕ, zero, suc, ◌+◌, ◌-◌, ◌<◌, ◌≡◌, Bool, true, false, not, ◌==◌, if◌then◌else◌, Bytes, byte_at, ℤ,
  pos, negsuc, failure, is_minus_one, Option, none, some,
}
use linux_based_os.Programs.{Program, ◌>>=◌, ◌>>◌, return, Os}
use linux_based_os.Programs.Support.{text, ece391_fdputs}

abbrev pub big_fd : ℤ
big_fd = pos 1073741823

-- -1073741823
abbrev pub neg_fd : ℤ
neg_fd = negsuc 1073741822

module _ {S : Type 0} (os : Os S) where
  abbrev say : Bytes → Program S (Unit {0})
  say message = ece391_fdputs os (pos 1) message

  -- A call that has not returned -1 is reported, and `fail` is set.
  unfoldable pub expect : ℤ → Bytes → ℕ → Program S ℕ
  expect ret message fail = if is_minus_one ret then return fail else say message >>= λ _. return 2

  -- The end of each test.
  unfoldable pub verdict : Bytes → Bytes → ℕ → Program S ℕ
  verdict bad good fail = do if fail == 0 then say good else say bad; return fail

  -- The three calls of the first two tests.
  unfoldable pub err_fd : ℤ → Bytes → Bytes → Bytes → Program S ℕ
  err_fd fd bad good buf = do
    r ← os.ece391_read fd buf (pos 31)
    fail_1 ← expect r.0 (text "read fail\n") 0
    w ← os.ece391_write fd r.1 (pos 31)
    fail_2 ← expect w (text "write fail\n") fail_1
    c ← os.ece391_close fd
    fail_3 ← expect c (text "close fail\n") fail_2
    verdict bad good fail_3

  unfoldable pub err_neg_fd : Bytes → Program S ℕ
  err_neg_fd buf = err_fd neg_fd (text "err_neg_fd: FAIL\n") (text "err_neg_fd: PASS\n") buf

  unfoldable pub err_big_fd : Bytes → Program S ℕ
  err_big_fd buf = err_fd big_fd (text "err_big_fd: FAIL\n") (text "err_big_fd: PASS\n") buf

  -- The failures among `left` opens of the directory.
  unfoldable pub open_lots : ℕ → ℕ → Program S ℕ
  open_lots zero cnt = return cnt
  open_lots (suc left) cnt = do
    fd ← os.ece391_open (text ".")
    open_lots left (if is_minus_one fd then cnt + 1 else cnt)

  unfoldable pub close_lots : ℕ → ℕ → Program S (Unit {0})
  close_lots zero i = return tt
  close_lots (suc left) i = do c ← os.ece391_close (pos i); close_lots left (i + 1)

  unfoldable pub err_open_lots : Program S ℕ
  err_open_lots = do
    cnt ← open_lots 7 0
    close_lots 6 2
    if cnt == 1
        then (say (text "err_open_lots: PASS\n") >>= (λ _. return 0))
        else say (text "err_open_lots: FAIL\n") >>= λ _. return 2

  unfoldable pub err_open : Program S ℕ
  err_open = do
    r1 ← os.ece391_open (text "helloo")
    fail_1 ← expect r1 (text "'helloo' fail\n") 0
    r2 ← os.ece391_open (text "shel")
    fail_2 ← expect r2 (text "'shel' fail\n") fail_1
    r3 ← os.ece391_open (text "")
    fail_3 ← expect r3 (text "empty string fail\n") fail_2
    verdict (text "err_open: FAIL\n") (text "err_open: PASS\n") fail_3

  unfoldable pub close_all_fds : ℕ → ℕ → ℕ → Program S ℕ
  close_all_fds zero i fail = return fail
  close_all_fds (suc left) i fail = do
    c ← os.ece391_close (pos i)
    fail' ← expect c (text "close unopened or invalid fd fail\n") fail
    close_all_fds left (i + 1) fail'

  unfoldable pub read_all_fds : ℕ → ℕ → Bytes → ℕ → Program S (ℕ × Bytes)
  read_all_fds zero i buf fail = return (fail, buf)
  read_all_fds (suc left) i buf fail = do
    r ← os.ece391_read (pos i) buf (pos 31)
    fail' ← expect r.0 (text "read from unopened fd fail\n") fail
    read_all_fds left (i + 1) r.1 fail'

  unfoldable pub write_all_fds : ℕ → ℕ → Bytes → ℕ → Program S ℕ
  write_all_fds zero i buf fail = return fail
  write_all_fds (suc left) i buf fail = do
    w ← os.ece391_write (pos i) buf (pos 31)
    fail' ← expect w (text "write to unopened fd fail\n") fail
    write_all_fds left (i + 1) buf fail'

  unfoldable pub err_unopened : Bytes → Program S ℕ
  err_unopened buf = do
    fail_1 ← close_all_fds 8 0 0
    r ← read_all_fds 6 2 buf fail_1
    fail_3 ← write_all_fds 6 2 r.1 r.0
    verdict (text "err_unopened: FAIL\n") (text "err_unopened: PASS\n") fail_3

  unfoldable pub err_vidmap : Program S ℕ
  err_vidmap = do
    r1 ← os.ece391_vidmap 0
    fail_1 ← expect r1 (text "Null pointer fail\n") 0
    r2 ← os.ece391_vidmap 0x400000
    fail_2 ← expect r2 (text "Kernel pointer fail fail\n") fail_1
    verdict (text "err_vidmap: FAIL\n") (text "err_vidmap: PASS\n") fail_2

  unfoldable pub err_stdin_out : Bytes → Program S ℕ
  err_stdin_out buf = do
    w ← os.ece391_write (pos 0) buf (pos 31)
    fail_1 ← expect w (text "write to stdin fail\n") 0
    r ← os.ece391_read (pos 1) buf (pos 31)
    fail_2 ← expect r.0 (text "read from stdout fail\n") fail_1
    verdict (text "err_stdin_out: FAIL\n") (text "err_stdin_out: PASS\n") fail_2

  unfoldable pub err_syscall_num : Program S ℕ
  err_syscall_num = do
    r1 ← os.call_sys big_fd
    fail_1 ← expect r1 (text "syscall 0 fail\n") 0
    r2 ← os.call_sys neg_fd
    fail_2 ← expect r2 (text "big num syscall fail\n") fail_1
    r3 ← os.call_sys (pos 0)
    fail_3 ← expect r3 (text "neg num syscall fail\n") fail_2
    verdict (text "err_syscall_num: FAIL\n") (text "err_syscall_num: PASS\n") fail_3

  -- `junk` is what each test finds in its own buffer.
  unfoldable pub all_tests : Bytes → Program S ℕ
  all_tests junk = do
    f1 ← err_neg_fd junk
    f2 ← err_big_fd junk
    f3 ← err_open_lots
    f4 ← err_open
    f5 ← err_unopened junk
    f6 ← err_vidmap
    f7 ← err_stdin_out junk
    f8 ← err_syscall_num
    let fail = f1 + f2 + f3 + f4 + f5 + f6 + f7 + f8
    if fail == 0 then say (text "\nOverall Tests: PASS\n") else say (text "\nOverall Tests: FAIL\n")
    return fail

  -- The switch on the number of the test.
  unfoldable pub run_test : ℕ → Bytes → Program S ℕ
  run_test c junk =
      if c == b'0'
      then all_tests junk
      else if c == b'1'
      then err_neg_fd junk
      else if c == b'2'
      then err_big_fd junk
      else if c == b'3'
      then err_open_lots
      else if c == b'4'
      then err_open
      else if c == b'5'
      then err_unopened junk
      else if c == b'6'
      then err_vidmap
      else if c == b'7'
      then err_stdin_out junk
      else if c == b'8'
      then err_syscall_num
      else say (text "Invalid test number. Choose from tests 1-8 or 0") >>= λ _. return 0

  unfoldable pub syserr_main : Bytes → Bytes → Program S ℕ
  syserr_main buf junk = do
    say (text "Choose from tests 1-8. 0 to run all: ")
    r ← os.ece391_read (pos 0) buf (pos 127)
    if is_minus_one r.0
        then (say (text "Can't read test #\n") >>= (λ _. return 2))
        else run_test (byte_at r.1 0) junk
