-- ===== src/Syscalls/Tests.antt =====
-- The theorem on sys_open_c and sys_read_c of student-distrib/sys_calls.c at the image of
-- Filesys.Image.
use linux_based_os.Prelude.{
  ℕ, ◌+◌, ◌*◌, ◌^◌, ◌<◌, ◌≤◌, ◌≡◌, ◌==◌, refl, arith, Bytes, byte_at, true, false, failure, none,
  word, some, pos, min, [], ==→eq,
}
use linux_based_os.Prelude.Below.{all_below, all_below_lem}
use linux_based_os.Pcb.{find_unused}
use linux_based_os.Filesys.{chars, load}
use linux_based_os.Filesys.Image.{mounted, fish, free_files, fish-IsSearchable, fish-IsWellFormed}
use linux_based_os.Filesys.Data.Contents.{file_size, file_byte}
use linux_based_os.Filesys.File.Open.{IsFirst}
use linux_based_os.Syscalls.{Kernel, Events, Called, sys_open, sys_read}
use linux_based_os.Syscalls.Open.{IsFileNamed}
use linux_based_os.Paging.{Paging, init_paging, vid_addr}
use linux_based_os.Paging.Walk.{walk, IsLinked}
use linux_based_os.Syscalls.Args.{sys_vidmap}
use linux_based_os.Syscalls.Vidmap.{user_screen, sys_vidmap-mapped}
use linux_based_os.Syscalls.OpenRead.{sys_open_read-Delivers}

abbrev booted : Kernel
booted = record {
  fs = mounted;
  files = free_files;
  keyboard = record {
    screen = record { screen_x = 0; screen_y = 0; mem = λ a. 0; outs = [] };
    pic = record { master_mask = 0xFF; slave_mask = 0xFF; outs = [] };
    interrupts = true;
    key_buf = λ j. 0;
    key_buf_index = 0;
    enter_flag = 0;
    dict = 0;
    ctrl_mode = 0;
    caps_mode = 0;
    shift_mode = 0;
    mode_flag = 0;
  };
  rtc_interrupt = 0;
}

abbrev quiet : Events
quiet = record { batches = []; ticks = []; prev = 0 }

same_bytes : (j : ℕ) → j < 32 → byte_at fish j ≡ byte_at (chars mounted 64) j
unfolding all_below chars
same_bytes j p =
    ==→eq _ _ (all_below_lem 32 (λ q. byte_at fish q == byte_at (chars mounted 64) q) j refl p)

fish-IsFirst : IsFirst mounted fish 1
fish-IsFirst = record {
  in_directory = (omega arith, omega arith);
  named = λ j p q r. same_bytes j q;
  first = λ i p q. absurd (omega arith);
}

inode_of_fish : load mounted (64 * 1 + 36) ≡ 1
unfolding load word
inode_of_fish = refl

fish-IsFileNamed : IsFileNamed booted fish 1
unfolding load word find_unused
fish-IsFileNamed = record {
  searchable = fish-IsSearchable;
  first = fish-IsFirst;
  regular = refl;
  known = omega arith;
  well_formed = fish-IsWellFormed;
  free = omega arith;
  size = refl;
}

sys_open_read-Delivers_example :
    (k' : Kernel) × (sys_open booted quiet (λ j. 0) (some fish)
      ≡ some (pos (find_unused 6 2 free_files), k'))
    × ((ev' : Events) (n : ℕ) (buf : Bytes)
        → n < 2 ^ 31
        → (out : Called) × (sys_read k' ev' (pos (find_unused 6 2 free_files)) (some buf) (pos n)
            ≡ some out)
          × (out.ret ≡ pos (min n (file_size mounted (load mounted (64 * 1 + 36)))))
          × ((j : ℕ)
              → j < min n (file_size mounted (load mounted (64 * 1 + 36)))
              → out.buf j ≡ file_byte mounted (load mounted (64 * 1 + 36)) j))
sys_open_read-Delivers_example =
    sys_open_read-Delivers booted fish 1 fish-IsFileNamed quiet (λ j. 0)

-- Empty tables, before paging is on.
abbrev no_tables : Paging
no_tables = record {
  page_directory = λ k. 0;
  page_table_0 = λ k. 0;
  page_table_1 = λ k. 0;
  directory_loaded = false;
  size_extensions = false;
  global_pages = false;
  paging = false;
}

no_tables-IsLinked : IsLinked 0x406000 0x407000
no_tables-IsLinked = record {
  fits_0 = omega arith;
  fits_1 = omega arith;
  aligned_0 = refl;
  aligned_1 = refl;
  apart = omega arith;
}

abbrev tables_on : Paging
tables_on = init_paging 0x406000 0x407000 no_tables

sys_vidmap-mapped_example :
    (0x08048000 ≤ 0x00400000
      → sys_vidmap 0x406000 0x407000 (λ a k. 0) tables_on 0x08048000 ≡ (failure, none))
    × (0x00400000 < 0x08048000
        → (sys_vidmap 0x406000 0x407000 (λ a k. 0) tables_on 0x08048000 ≡ (pos 0, some user_screen))
          × (walk 0x406000 0x407000 (λ a k. 0) tables_on user_screen ≡ some vid_addr))
sys_vidmap-mapped_example =
    sys_vidmap-mapped 0x406000 0x407000 (λ a k. 0) no_tables no_tables-IsLinked 0x08048000
