-- ===== src/Programs/Tests.antt =====
-- The theorems on the programs of syscalls, and on sys_getargs_c of student-distrib/sys_calls.c, at
-- the image of Filesys.Image.
use linux_based_os.Prelude.{
  ℕ, ◌+◌, ◌-◌, ◌*◌, ◌%◌, ◌<◌, ◌≤◌, ◌≡◌, ◌↔◌, refl, arith, Bytes, byte_at, update, true, pos,
  failure, some, [], ◌==◌, if◌then◌else◌, set, zero, suc, min, ◌^◌, ℤ,
}
use linux_based_os.Cstring.{codes, strlen, strrev, itoa, strncmp}
use linux_based_os.Pcb.{terminal_table, desc, dir_table}
use linux_based_os.Filesys.{chars}
use linux_based_os.Filesys.Image.{segment, mounted, entry_1, entry_2}
use linux_based_os.Process.{new_files}
use linux_based_os.Syscalls.{Kernel}
use linux_based_os.Syscalls.Args.{sys_getargs}
use linux_based_os.Syscalls.Getargs.{IsCommand, sys_getargs_lem}
use linux_based_os.Programs.Support.{
  text, ece391_strlen, ece391_strrev, ece391_itoa, ece391_strncmp,
}
use linux_based_os.Programs.Support.Kernel.{support-kernel}
use linux_based_os.Programs.Files.{ls_loop}
use linux_based_os.Programs.Syserr.{err_neg_fd, err_big_fd, err_vidmap, err_stdin_out, err_unopened}
use linux_based_os.Programs.Syserr.Passes.{Passed, tests-Passed}
use linux_based_os.Programs.OnKernel.{Task, kernel_os, HasStdout, screen_of, kernel_os-IsTerminal}
use linux_based_os.Cstring.Scan.{HasLength}
use linux_based_os.Programs.Ls.{listing}
use linux_based_os.Programs.OnKernel.Ls.{IsDirectory, IsDirAt, ls_loop-types}
use linux_based_os.Programs.Counter.{Counted, counter_loop-Counted}
use linux_based_os.Programs.Console.{counter_loop}

abbrev input : Bytes
input = segment 0 (codes "cat fish")

-- A new process, with the image mounted.
abbrev fresh_kernel : Kernel
fresh_kernel = record {
  fs = mounted;
  files = new_files;
  keyboard = record {
    screen = record { screen_x = 0; screen_y = 0; mem = λ a. 0; outs = [] };
    pic = record { master_mask = 0xFF; slave_mask = 0xFF; outs = [] };
    interrupts = true;
    key_buf = λ j. 0;
    key_buf_index = 0;
    enter_flag = 0;
    dict = 0;
    ctrl_mode = 0;
    caps_mode = 0;
    shift_mode = 0;
    mode_flag = 0;
  };
  rtc_interrupt = 0;
}

abbrev task : Task
task = record {
  events = record { batches = []; ticks = []; prev = 0 };
  input = input;
  junk = λ j. 0;
  table_0 = 0x406000;
  table_1 = 0x407000;
  elsewhere = λ a k. 0;
  paging = record {
    page_directory = λ k. 0;
    page_table_0 = λ k. 0;
    page_table_1 = λ k. 0;
    directory_loaded = true;
    size_extensions = true;
    global_pages = true;
    paging = true;
  };
  execute = λ command k. some (failure, k);
  syscall = λ num k. some (failure, k);
}

input-IsCommand : IsCommand input 3 8
input-IsCommand = record {
  blank_first = λ j p. ground arith;
  is_blank = refl;
  behind = omega arith;
  visible = λ j p q. ground arith;
  ends = refl;
}

sys_getargs_lem_example :
    ((nbytes : ℤ) → (r : ℤ × Bytes) × (sys_getargs input (λ j. 0) nbytes ≡ some r))
    × ((nbytes : ℕ)
        → 2 * 8 < nbytes
        → nbytes < 2 ^ 31
        → (out : Bytes) × (sys_getargs input (λ j. 0) (pos nbytes)
            ≡ some (if 8 - 3 - 1 == 0 then failure else pos 0, out))
          × ((j : ℕ) → j ≤ 8 - 3 - 1 → out j ≡ byte_at input (3 + 1 + j)))
sys_getargs_lem_example = sys_getargs_lem input 3 8 input-IsCommand (λ j. 0) (omega arith)

support-kernel_example :
    (ece391_strlen input ≡ strlen input)
    × (ece391_strrev input ≡ strrev input)
    × (ece391_itoa 10 input 10 ≡ itoa 10 input 10)
    × ((ece391_strncmp input (text "cat") 10 ≡ pos 0) ↔ (strncmp input (text "cat") 10 ≡ pos 0))
support-kernel_example = support-kernel input (text "cat") 10 10

-- What sys_getargs_c leaves in a buffer of zeros.
abbrev name : Bytes
name = update (update (update (update (update (λ j. 0) 0 b'f') 1 b'i') 2 b's') 3 b'h') 4 0

fresh_kernel-HasStdout : HasStdout fresh_kernel
fresh_kernel-HasStdout = record { size = refl; in_use = refl; terminal = refl }

tests-Passed_example :
    Passed task fresh_kernel "err_neg_fd: PASS\n" 17
      (err_neg_fd (kernel_os task) (λ j. 0) fresh_kernel)
    × Passed task fresh_kernel "err_big_fd: PASS\n" 17
        (err_big_fd (kernel_os task) (λ j. 0) fresh_kernel)
    × Passed task fresh_kernel "err_vidmap: PASS\n" 17 (err_vidmap (kernel_os task) fresh_kernel)
    × ((desc new_files 0).flags % 2 ≡ 1
        → (desc new_files 0).file_op_ptr ≡ terminal_table
        → Passed task fresh_kernel "err_stdin_out: PASS\n" 20
            (err_stdin_out (kernel_os task) (λ j. 0) fresh_kernel))
    × (((i : ℕ) → 2 ≤ i → i < 8 → (desc new_files i).flags % 2 ≡ 0)
        → Passed task fresh_kernel "err_unopened: PASS\n" 19
            (err_unopened (kernel_os task) (λ j. 0) fresh_kernel))
tests-Passed_example = tests-Passed task fresh_kernel (λ j. 0) fresh_kernel-HasStdout

-- The process with descriptor 2 open on the directory.
abbrev listing_kernel : Kernel
listing_kernel = record fresh_kernel {
  files = set new_files 2 (record { file_op_ptr = dir_table; inode = 0; file_pos = 0; flags = 3 });
}

-- The lengths of the names "fish" and ".".
unfoldable name_len : ℕ → ℕ
name_len zero = 4
name_len (suc i) = 1

mounted_names : (i : ℕ) → i < 2 → HasLength (chars mounted (64 * (i + 1))) (name_len i)
unfolding name_len
mounted_names zero p = entry_1
mounted_names (suc zero) p = entry_2
mounted_names (suc (suc i)) p = absurd (omega arith)

name_len_small : (i : ℕ) → (0 < name_len i) × (name_len i < 2 ^ 32)
unfolding name_len
name_len_small zero = (omega arith, omega arith)
name_len_small (suc i) = (omega arith, omega arith)

mounted-IsDirectory : IsDirectory mounted name_len
mounted-IsDirectory = record {
  entries_fit = omega arith;
  name_ends = mounted_names;
  name_fits = λ i p. (name_len_small i).1;
  visible = λ i p. (name_len_small i).0;
}

listing_kernel-IsDirAt : IsDirAt mounted 2 0 listing_kernel
listing_kernel-IsDirAt = record {
  image = record { mem = refl; filesys_ptr = refl; bblock = refl };
  is_directory = refl;
  dir_ops = refl;
  position = refl;
}

listing_kernel-HasStdout : HasStdout listing_kernel
listing_kernel-HasStdout = record { size = refl; in_use = refl; terminal = refl }

ls_loop-types_example :
    (k' : Kernel) × (ls_loop (kernel_os task) 3 (pos 2) (λ j. 0) listing_kernel ≡ some (pos 0, k'))
    × HasStdout k'
    × (k'.keyboard.screen
        ≡ listing 2 0
            (λ e. byte_at (chars mounted (64 * (e + 1))))
            (λ e. min (name_len e) 32)
            listing_kernel.keyboard.screen)
ls_loop-types_example =
    ls_loop-types task mounted 2 (omega arith) (omega arith) name_len mounted-IsDirectory 2 0 3
      (λ j. 0) listing_kernel listing_kernel-HasStdout listing_kernel-IsDirAt (omega arith)
      (omega arith)

counter_loop-Counted_example :
    (k' : Kernel) × (counter_loop (kernel_os task) 3 0 (λ j. 0) fresh_kernel ≡ some (pos 0, k'))
    × HasStdout k'
    × Counted 3 0 fresh_kernel.keyboard.screen k'.keyboard.screen
counter_loop-Counted_example =
    counter_loop-Counted (kernel_os task) HasStdout screen_of (kernel_os-IsTerminal task) 3 0
      (λ j. 0) fresh_kernel fresh_kernel-HasStdout (omega arith)
