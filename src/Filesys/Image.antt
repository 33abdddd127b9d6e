-- ===== src/Filesys/Image.antt =====
-- A small file system image, as student-distrib/filesys.c finds it in memory, for the tests.
use linux_based_os.Prelude.{
  ℕ, zero, suc, ◌+◌, ◌-◌, ◌*◌, ◌<◌, ◌≡◌, refl, arith, leb, if◌then◌else◌, Bytes, List, [], ◌∷◌, inl,
  word, replicate, get_elem?, set,
}
use linux_based_os.Cstring.{codes, or_zero}
use linux_based_os.Cstring.Scan.{HasLength}
use linux_based_os.Pcb.{FileArray, FileDesc, clear_fd, file_table}
use linux_based_os.Filesys.{Filesys, chars, load, inode_word, init_filesys}
use linux_based_os.Filesys.Dentry.ByName.{NamesEnd}
use linux_based_os.Filesys.Dentry.Lookup.{IsSearchable}
use linux_based_os.Filesys.Data.{flags_idx}
use linux_based_os.Filesys.Data.Contents.{IsWellFormed, file_size}
use linux_based_os.Filesys.File.Read.{IsOpen}

-- `cs` from address `base` on, and zeros elsewhere.
abbrev pub segment : ℕ → List ℕ → Bytes
segment base cs i = if leb base i then or_zero (get_elem? cs (i - base)) else 0

-- Two entries, "fish" and ".", two inodes and two data blocks at address 65536; inode 1 has the
-- five bytes "hello" in data block 1.
abbrev pub image : Bytes
image i =
    segment 65536 (2 ∷ 0 ∷ 0 ∷ 0 ∷ 2 ∷ 0 ∷ 0 ∷ 0 ∷ 2 ∷ []) i
    + segment 65600 (codes "fish") i
    + segment 65632 (2 ∷ 0 ∷ 0 ∷ 0 ∷ 1 ∷ []) i
    + segment 65664 (codes ".") i
    + segment 65696 (1 ∷ []) i
    + segment 73728 (5 ∷ 0 ∷ 0 ∷ 0 ∷ 1 ∷ []) i
    + segment 81920 (codes "hello") i

abbrev pub unmounted : Filesys
unmounted = record {
  mem = image;
  filesys_ptr = 0;
  bblock = record { n_dir_entries = 0; n_inodes = 0; n_data_blocks = 0; reserved = 0 };
  open_dentry = λ j. 0;
  read_dentry = λ j. 0;
  filename_buf = λ j. 0;
}

abbrev pub mounted : Filesys
mounted = record unmounted {
  filesys_ptr = 65536;
  bblock = record { n_dir_entries = 2; n_inodes = 2; n_data_blocks = 2; reserved = 0 };
}

init_filesys_runs : (init_filesys 65536 unmounted).bblock ≡ mounted.bblock
unfolding init_filesys load word
init_filesys_runs = refl

abbrev pub fish : Bytes
fish = segment 0 (codes "fish")

-- The directory is the second entry.
abbrev pub dot : Bytes
dot = segment 0 (codes ".")

pub fish_len : HasLength fish 4
fish_len = record { ends = refl; before = λ j p. ground arith }

pub entry_1 : HasLength (chars mounted 64) 4
unfolding chars
entry_1 = record { ends = refl; before = λ j p. ground arith }

pub entry_2 : HasLength (chars mounted 128) 1
unfolding chars
entry_2 = record { ends = refl; before = λ j p. ground arith }

pub names_end : NamesEnd mounted 1 3
names_end zero p q = absurd (omega arith)
names_end (suc zero) p q = (4, entry_1, omega arith)
names_end (suc (suc zero)) p q = (1, entry_2, omega arith)
names_end (suc (suc (suc k))) p q = absurd (omega arith)

pub fish-IsSearchable : IsSearchable mounted fish
fish-IsSearchable = record {
  mounted = omega arith;
  fname_len = 4;
  fname_ends = fish_len;
  short = omega arith;
  names_end = names_end;
}

-- The descriptors of a new process: two of the terminal, then six free ones.
abbrev pub free_files : FileArray
free_files = replicate 8 clear_fd

abbrev pub open_fish : FileDesc
open_fish = record { file_op_ptr = file_table; inode = 1; file_pos = 0; flags = 0x105 }

abbrev pub fish_files : FileArray
fish_files = set free_files 2 open_fish

pub fish_size : file_size mounted 1 ≡ 5
unfolding inode_word load word
fish_size = refl

fish_blocks : (b : ℕ) → b * 4096 < file_size mounted 1 → inode_word mounted 1 (b + 1) < 2
unfolding inode_word load word
fish_blocks zero p = omega arith
fish_blocks (suc b) p = absurd (omega (arith, fish_size))

pub fish-IsWellFormed : IsWellFormed mounted 1
fish-IsWellFormed = record { fits = omega (arith, fish_size); blocks = fish_blocks }

pub fish-IsOpen : IsOpen mounted open_fish
unfolding flags_idx
fish-IsOpen = record {
  known = omega arith;
  well_formed = fish-IsWellFormed;
  in_step = inl refl;
  flags_fit = omega arith;
  pos_fits = omega arith;
  is_regular = refl;
}
