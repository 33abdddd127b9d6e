-- ===== src/Programs/Console.antt =====
-- The programs that talk to the user: syscalls/ece391shell.c, syscalls/ece391counter.c,
-- syscalls/ece391hello.c and syscalls/ece391testprint.c. `buf` is what the buffer holds before it
-- is written.
use linux_based_os.Prelude.{
  ℕ, zero, suc, ◌+◌, ◌-◌, Bool, not, ◌&&◌, ◌||◌, ltb, ◌==◌, if◌then◌else◌, Bytes, byte_at, update,
  ℤ, pos, is_minus_one, none, false,
}
use linux_based_os.Filesys.Dentry.{is_zero}
use linux_based_os.Programs.{Program, ◌>>=◌, ◌>>◌, return, lift, Os, count}
use linux_based_os.Programs.Support.{text, ece391_fdputs, ece391_strlen, ece391_strcmp, ece391_itoa}
use linux_based_os.Programs.Files.{complain}

-- The place of the terminator: the newline at the end of a line is cut off.
abbrev pub line_end : ℕ → Bytes → ℕ
line_end cnt buf = if not (cnt == 0) && (b'\n' == byte_at buf (cnt - 1)) then cnt - 1 else cnt

abbrev pub is_256 : ℤ → Bool
is_256 (pos n) = n == 256
is_256 r = false

-- What the first digit stands for.
abbrev pub choose_max : ℕ → ℕ
choose_max c =
    if c == b'0' then 100 else if c == b'1' then 10000 else if c == b'2' then 100000 else 0

module _ {S : Type 0} (os : Os S) where
  -- What the shell says of the result of a program.
  unfoldable pub report : ℤ → Program S (Unit {0})
  report rval =
      if is_minus_one rval
      then ece391_fdputs os (pos 1) (text "no such command\n")
      else if is_256 rval
      then ece391_fdputs os (pos 1) (text "program terminated by exception\n")
      else if not (is_zero rval)
      then ece391_fdputs os (pos 1) (text "program terminated abnormally\n")
      else return tt

  -- The fuel bounds the number of lines.
  unfoldable pub shell_loop : ℕ → Bytes → Program S ℤ
  shell_loop zero buf = λ s. none
  shell_loop (suc fuel) buf = do
    ece391_fdputs os (pos 1) (text "391OS> ")
    r ← os.ece391_read (pos 0) buf (pos 1023)
    let line = update r.1 (line_end (count r.0) r.1) 0
    let rest = shell_loop fuel line
    let compared = λ (c : ℤ).
        if is_zero c
        then return (pos 0)
        else if 0 == byte_at line 0
        then rest
        else os.ece391_execute line >>= λ rval. report rval >>= λ _. rest
    if is_minus_one r.0
        then complain os (text "read from keyboard failed\n") (pos 3)
        else lift (ece391_strcmp line (text "exit")) >>= compared

  unfoldable pub shell_main : ℕ → Bytes → Program S ℤ
  shell_main fuel buf = do
    ece391_fdputs os (pos 1) (text "Starting 391 Shell\n")
    shell_loop fuel buf

  unfoldable pub counter_loop : ℕ → ℕ → Bytes → Program S ℤ
  counter_loop zero i buf = return (pos 0)
  counter_loop (suc left) i buf = do
    digits ← lift (ece391_itoa (i + 1) buf 10)
    ece391_fdputs os (pos 1) digits
    ece391_fdputs os (pos 1) (text "\n")
    counter_loop left (i + 1) digits

  unfoldable pub counter_main : Bytes → Program S ℤ
  counter_main buf = do
    ece391_fdputs os (pos 1) (text "Enter the Test Number: (0): 100, (1): 10000, (2): 100000\n")
    r ← os.ece391_read (pos 0) buf (pos 1023)
    let line = update r.1 (count r.0) 0
    let measured = λ (len : ℕ).
        if ltb 2 len || ((len == 2) && (ltb (byte_at line 0) b'0' || ltb b'2' (byte_at line 0)))
        then complain os (text "Wrong Choice!\n") (pos 0)
        else counter_loop (choose_max (byte_at line 0)) 0 line
    if is_minus_one r.0
        then complain os (text "Can't read the number from keyboard.\n") (pos 3)
        else lift (ece391_strlen line) >>= measured

  unfoldable pub hello_main : Bytes → Program S ℤ
  hello_main buf = do
    ece391_fdputs os (pos 1) (text "Hi, what's your name? ")
    r ← os.ece391_read (pos 0) buf (pos 1023)
    let greet = do
      ece391_fdputs os (pos 1) (text "Hello, ")
      ece391_fdputs os (pos 1) (update r.1 (count r.0) 0)
      return (pos 0)
    if is_minus_one r.0
        then complain os (text "Can't read name from keyboard.\n") (pos 3)
        else greet

  unfoldable pub testprint_main : Program S ℤ
  testprint_main = do
    ece391_fdputs os (pos 1) (text "Hello, if this ran, the program was correct. Yay!\n")
    return (pos 0)
