-- ===== src/Programs/Syserr/Passes.antt =====
-- The tests of syscalls/ece391syserr.c on the kernel of student-distrib.
use linux_based_os.Prelude.{
  ℕ, zero, suc, ◌+◌, ◌%◌, ◌^◌, ◌<◌, ◌≤◌, ◌≡◌, refl, arith, true, false, ◌==◌, Bytes, byte_at, ℤ,
  pos, failure, Option, some, eq→==, ne→==, is_below, exceeds, ◌||◌, not, inl, inr, ltb, Bool-cases,
}
use Prim.Native.String.{String}
use linux_based_os.Cstring.Scan.{HasLength}
use linux_based_os.Pcb.{desc, terminal_table}
use linux_based_os.Keyboard.Terminal.{write_loop, terminal_read, terminal_write}
use linux_based_os.Syscalls.{
  Kernel, is_closed, checked, read_ptr, write_ptr, sys_read, sys_write, sys_close, call_failed,
  bad_fd,
}
use linux_based_os.Syscalls.Args.{sys_vidmap}
use linux_based_os.Programs.{Os}
use linux_based_os.Programs.Support.{text}
use linux_based_os.Programs.Terminal.{fdputs-shows}
use linux_based_os.Programs.OnKernel.{Task, kernel_os, HasStdout, screen_of, kernel_os-IsTerminal}
use linux_based_os.Programs.Syserr.{
  big_fd, neg_fd, expect, verdict, err_fd, err_neg_fd, err_big_fd, err_vidmap, close_all_fds,
  read_all_fds, write_all_fds, err_unopened, err_stdin_out,
}
use linux_based_os.Prelude.Below.{all_below, all_below_lem}

text-HasLength :
    (message : String) (n : ℕ)
    → byte_at (text message) n ≡ 0
    → all_below n (λ j. not (byte_at (text message) j == 0)) ≡ true
    → HasLength (text message) n
text-HasLength message n e h = record {
  ends = e;
  before = λ j p z.
      let nonzero = all_below_lem n (λ i. not (byte_at (text message) i == 0)) j h p in grind arith;
}

module _ {S : Type 0} (os : Os S) where
  expect-good : (message : Bytes) (s : S) → expect os failure message 0 s ≡ some (0, s)
  unfolding expect
  expect-good message s = refl

module _ (q : Task) where
  verdict-good :
      (k : Kernel) (bad good : Bytes) (n : ℕ)
      → HasStdout k
      → HasLength good n
      → n < 2 ^ 31
      → (k' : Kernel) × (verdict (kernel_os q) bad good 0 k ≡ some (0, k'))
        × HasStdout k'
        × (k'.keyboard.screen ≡ write_loop n 0 good k.keyboard.screen)
  unfolding verdict
  verdict-good k bad good n ready h small =
      let (k', e, ready', shown) =
        fdputs-shows (kernel_os q) HasStdout screen_of (kernel_os-IsTerminal q) k good n ready h
          small in
      (k', rw e refl, ready', shown)

  -- What a test that passes leaves: 0 for its result, and its message on the screen.
  abbrev pub Passed : Kernel → String → ℕ → Option (ℕ × Kernel) → Type 0
  Passed k message n o =
      (k' : Kernel) × (o ≡ some (0, k'))
      × HasStdout k'
      × (k'.keyboard.screen ≡ write_loop n 0 (text message) k.keyboard.screen)

  -- A descriptor that every call refuses.
  record IsRefused (fd : ℤ) (k : Kernel) : Type 0 where
    reading : (buf : Bytes) → sys_read k q.events fd (some buf) (pos 31) ≡ some (call_failed buf k)
    writing : (buf : Bytes) → sys_write k q.events fd (some buf) (pos 31) ≡ some (call_failed buf k)
    closing : sys_close k fd ≡ some (failure, k)

  err_fd-Passed :
      (fd : ℤ) (bad : Bytes) (message : String) (n : ℕ) (k : Kernel) (buf : Bytes)
      → IsRefused fd k
      → HasStdout k
      → HasLength (text message) n
      → n < 2 ^ 31
      → Passed k message n (err_fd (kernel_os q) fd bad (text message) buf k)
  unfolding err_fd
  err_fd-Passed fd bad message n k buf v ready h small =
      let no = λ (m : Bytes). expect-good (kernel_os q) m k in
      let (k', e, ready', shown) = verdict-good k bad (text message) n ready h small in
      (
        k',
        rw
            (
              v.reading buf,
              no (text "read fail\n"),
              v.writing buf,
              no (text "write fail\n"),
              v.closing,
              no (text "close fail\n"),
            )
            e,
        ready',
        shown,
      )

  neg_fd-IsRefused : (k : Kernel) → IsRefused neg_fd k
  unfolding sys_read sys_write sys_close checked
  neg_fd-IsRefused k = record { reading = λ b. refl; writing = λ b. refl; closing = refl }

  big_fd-IsRefused : (k : Kernel) → IsRefused big_fd k
  unfolding sys_read sys_write sys_close checked
  big_fd-IsRefused k = record { reading = λ b. refl; writing = λ b. refl; closing = refl }

  -- A closed descriptor of the file array, behind the first two.
  closed-IsRefused :
      (k : Kernel) (i : ℕ) → 2 ≤ i → i < 8 → (desc k.files i).flags % 2 ≡ 0 → IsRefused (pos i) k
  unfolding sys_read sys_write sys_close checked
  closed-IsRefused k i lo hi z =
      let e : is_closed k (pos i) ≡ true = eq→== _ _ z in
      let good : bad_fd (pos i) ≡ false = ground (arith, lo, hi) in
      let open_range : (is_below (pos i) 2 || exceeds (pos i) 7) ≡ false = ground (arith, lo, hi) in
      record {
        reading = λ b. rw (good, e) refl;
        writing = λ b. rw (good, e) refl;
        closing = rw (open_range, e) refl;
      }

  err_vidmap-Passed :
      (k : Kernel) → HasStdout k → Passed k "err_vidmap: PASS\n" 17 (err_vidmap (kernel_os q) k)
  unfolding err_vidmap sys_vidmap all_below
  err_vidmap-Passed k ready =
      let no = λ (m : Bytes). expect-good (kernel_os q) m k in
      let (k', e, ready', shown) =
        verdict-good k (text "err_vidmap: FAIL\n") (text "err_vidmap: PASS\n") 17 ready
          (text-HasLength "err_vidmap: PASS\n" 17 refl refl) (omega arith) in
      (
        k',
        rw (no (text "Null pointer fail\n"), no (text "Kernel pointer fail fail\n")) e,
        ready',
        shown,
      )

  stdin_write :
      (k : Kernel) (buf : Bytes)
      → (desc k.files 0).flags % 2 ≡ 1
      → (desc k.files 0).file_op_ptr ≡ terminal_table
      → sys_write k q.events (pos 0) (some buf) (pos 31) ≡ some (call_failed buf k)
  unfolding sys_write checked write_ptr terminal_write
  stdin_write k buf in_use terminal =
      let e : is_closed k (pos 0) ≡ false = ne→== _ 0 (omega (arith, in_use)) in
      rw (e, terminal) refl

  stdout_read :
      (k : Kernel) (buf : Bytes)
      → HasStdout k
      → sys_read k q.events (pos 1) (some buf) (pos 31) ≡ some (call_failed buf k)
  unfolding sys_read checked read_ptr terminal_read
  stdout_read k buf ready =
      let e : is_closed k (pos 1) ≡ false = ne→== _ 0 (omega (arith, ready.in_use)) in
      rw (e, ready.terminal) refl

  err_stdin_out-Passed :
      (k : Kernel) (buf : Bytes)
      → HasStdout k
      → (desc k.files 0).flags % 2 ≡ 1
      → (desc k.files 0).file_op_ptr ≡ terminal_table
      → Passed k "err_stdin_out: PASS\n" 20 (err_stdin_out (kernel_os q) buf k)
  unfolding err_stdin_out all_below
  err_stdin_out-Passed k buf ready in_use terminal =
      let no = λ (m : Bytes). expect-good (kernel_os q) m k in
      let (k', e, ready', shown) =
        verdict-good k (text "err_stdin_out: FAIL\n") (text "err_stdin_out: PASS\n") 20 ready
          (text-HasLength "err_stdin_out: PASS\n" 20 refl refl) (omega arith) in
      (
        k',
        rw
            (
              stdin_write k buf in_use terminal,
              no (text "write to stdin fail\n"),
              stdout_read k buf ready,
              no (text "read from stdout fail\n"),
            )
            e,
        ready',
        shown,
      )

  module _ (k : Kernel) (closed : (i : ℕ) → 2 ≤ i → i < 8 → (desc k.files i).flags % 2 ≡ 0) where
    refused_close : (i : ℕ) → i < 8 → sys_close k (pos i) ≡ some (failure, k)
    unfolding sys_close
    refused_close i h = elim (Bool-cases (ltb i 2)) [
      | inl e ↦ rw e refl
      | inr e ↦ (closed-IsRefused k i (ground arith) h (closed i (ground arith) h)).closing
    ]

    no_close : (left i : ℕ) → i + left ≤ 8 → close_all_fds (kernel_os q) left i 0 k ≡ some (0, k)
    unfolding close_all_fds
    no_close zero i h = refl
    no_close (suc left) i h =
        let no = expect-good (kernel_os q) (text "close unopened or invalid fd fail\n") k in
        rw (refused_close i (omega arith), no) (no_close left (i + 1) (omega arith))

    no_read :
        (left i : ℕ) (buf : Bytes)
        → 2 ≤ i
        → i + left ≤ 8
        → read_all_fds (kernel_os q) left i buf 0 k ≡ some ((0, buf), k)
    unfolding read_all_fds
    no_read zero i buf lo h = refl
    no_read (suc left) i buf lo h =
        let v = closed-IsRefused k i lo (omega arith) (closed i lo (omega arith)) in
        let no = expect-good (kernel_os q) (text "read from unopened fd fail\n") k in
        rw (v.reading buf, no) (no_read left (i + 1) buf (omega arith) (omega arith))

    no_write :
        (left i : ℕ) (buf : Bytes)
        → 2 ≤ i
        → i + left ≤ 8
        → write_all_fds (kernel_os q) left i buf 0 k ≡ some (0, k)
    unfolding write_all_fds
    no_write zero i buf lo h = refl
    no_write (suc left) i buf lo h =
        let v = closed-IsRefused k i lo (omega arith) (closed i lo (omega arith)) in
        let no = expect-good (kernel_os q) (text "write to unopened fd fail\n") k in
        rw (v.writing buf, no) (no_write left (i + 1) buf (omega arith) (omega arith))

    err_unopened-Passed :
        (buf : Bytes)
        → HasStdout k
        → Passed k "err_unopened: PASS\n" 19 (err_unopened (kernel_os q) buf k)
    unfolding err_unopened all_below
    err_unopened-Passed buf ready =
        let (k', e, ready', shown) =
          verdict-good k (text "err_unopened: FAIL\n") (text "err_unopened: PASS\n") 19 ready
            (text-HasLength "err_unopened: PASS\n" 19 refl refl) (omega arith) in
        (
          k',
          rw
              (
                no_close 8 0 (omega arith),
                no_read 6 2 buf (omega arith) (omega arith),
                no_write 6 2 buf (omega arith) (omega arith),
              )
              e,
          ready',
          shown,
        )

  -- On a kernel where a program has the terminal for its standard output, four of the tests pass:
  -- those of a negative descriptor, of one past the last, of vidmap with a null pointer and with
  -- an address of the kernel, and, where standard input is the terminal too, of a write to
  -- standard input and a read from standard output. So does the test of unopened descriptors,
  -- where no descriptor from 2 on is in use. Each returns 0, and the screen shows its message and
  -- nothing else.
  pub tests-Passed :
      (k : Kernel) (buf : Bytes)
      → HasStdout k
      → Passed k "err_neg_fd: PASS\n" 17 (err_neg_fd (kernel_os q) buf k)
        × Passed k "err_big_fd: PASS\n" 17 (err_big_fd (kernel_os q) buf k)
        × Passed k "err_vidmap: PASS\n" 17 (err_vidmap (kernel_os q) k)
        × ((desc k.files 0).flags % 2 ≡ 1
            → (desc k.files 0).file_op_ptr ≡ terminal_table
            → Passed k "err_stdin_out: PASS\n" 20 (err_stdin_out (kernel_os q) buf k))
        × (((i : ℕ) → 2 ≤ i → i < 8 → (desc k.files i).flags % 2 ≡ 0)
            → Passed k "err_unopened: PASS\n" 19 (err_unopened (kernel_os q) buf k))
  unfolding err_neg_fd err_big_fd all_below
  tests-Passed k buf ready = (
    err_fd-Passed neg_fd _ "err_neg_fd: PASS\n" 17 k buf (neg_fd-IsRefused k) ready
        (text-HasLength "err_neg_fd: PASS\n" 17 refl refl) (omega arith),
    err_fd-Passed big_fd _ "err_big_fd: PASS\n" 17 k buf (big_fd-IsRefused k) ready
        (text-HasLength "err_big_fd: PASS\n" 17 refl refl) (omega arith),
    err_vidmap-Passed k ready,
    λ in_use terminal. err_stdin_out-Passed k buf ready in_use terminal,
    λ closed. err_unopened-Passed k closed buf ready,
  )
