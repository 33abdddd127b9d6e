-- ===== src/Filesys/Dir/Tests.antt =====
-- The theorems on directories of student-distrib/filesys.c at the image of Filesys.Image.
use linux_based_os.Prelude.{
  ℕ, ◌%◌, ◌+◌, ◌^◌, ◌-◌, ◌≡◌, ◌≢◌, word, refl, arith, some, pos, failure, set, Bytes,
}
use linux_based_os.Pcb.{FileArray, FileDesc, desc, dir_table}
use linux_based_os.Filesys.{Filesys, block, inode_word, load}
use linux_based_os.Filesys.Data.{read_data, load_byte}
use linux_based_os.Filesys.Data.Read.{Delivers}
use linux_based_os.Filesys.Data.Contents.{file_size}
use linux_based_os.Filesys.Data.Program.{program_read-Delivers, program_read-misplaced}
use linux_based_os.Filesys.File.{file_read}
use linux_based_os.Filesys.File.Failure.{file_read_moves_back}
use linux_based_os.Filesys.Dir.{DirRead, dir_read}
use linux_based_os.Filesys.Dir.Read.{AtEntry, IsEntryRead, dir_read-IsEntryRead, dir_read_overruns}
use linux_based_os.Filesys.Image.{
  mounted, free_files, open_fish, entry_1, fish-IsWellFormed, fish_size,
}

-- A descriptor on the directory, at entry `p`.
abbrev open_dir : ℕ → FileDesc
open_dir p = record { file_op_ptr = dir_table; inode = 0; file_pos = p; flags = 3 }

abbrev dir_files : FileArray
dir_files = set free_files 2 (open_dir 0)

abbrev spaces : Bytes
spaces j = 0x20

at_fish : AtEntry mounted dir_files 2 4
at_fish = record {
  in_range = (omega arith, omega arith);
  present = refl;
  is_directory = refl;
  before_end = omega arith;
  entries_fit = omega arith;
  name_ends = entry_1;
  name_fits = omega arith;
}

dir_read-IsEntryRead_example :
    (out : DirRead) × (dir_read mounted dir_files (pos 2) (some spaces) (pos 3) ≡ some out)
    × IsEntryRead mounted dir_files 2 4 3 spaces out
dir_read-IsEntryRead_example = dir_read-IsEntryRead mounted dir_files 2 4 3 spaces at_fish

dir_read_overruns_example :
    (out : DirRead) × (dir_read mounted dir_files (pos 2) (some spaces) (pos 4) ≡ some out)
    × (out.ret ≡ pos 4)
    × (out.buf 4 ≢ 0x20)
dir_read_overruns_example =
    dir_read_overruns mounted dir_files 2 4 spaces at_fish (omega arith) (omega arith)

program_read-Delivers_example :
    Delivers mounted 1 0 4 spaces (read_data mounted free_files 1 0 (some spaces) 4 failure)
unfolding inode_word load word
program_read-Delivers_example =
    program_read-Delivers mounted 1 free_files 4 spaces fish-IsWellFormed (omega arith)
      (omega (arith, fish_size)) (omega (arith, fish_size)) (omega arith) (omega arith)

-- The same image with more data blocks than the file has bytes.
abbrev roomy : Filesys
roomy = record mounted {
  bblock = record { n_dir_entries = 2; n_inodes = 2; n_data_blocks = 9; reserved = 0 };
}

roomy_size : file_size roomy 1 ≡ 5
unfolding inode_word load word
roomy_size = refl

program_read-misplaced_example :
    (read_data roomy free_files 1 0 (some spaces) 4 failure).buf 0
    ≡ load_byte roomy (block roomy (file_size roomy 1))
program_read-misplaced_example =
    program_read-misplaced roomy 1 free_files 4 spaces (omega arith) (omega (arith, roomy_size))
      (omega (arith, roomy_size)) (omega arith)

abbrev lost_files : FileArray
lost_files = set free_files 2 (record open_fish { inode = 7 })

file_read_moves_back_example :
    let r = file_read mounted lost_files (pos 2) (some spaces) (pos 4) in
    (r.ret ≡ failure)
    × ((desc r.files 2).file_pos ≡ ((desc lost_files 2).file_pos + (2 ^ 32 - 1)) % 2 ^ 32)
file_read_moves_back_example =
    file_read_moves_back mounted lost_files 2 spaces (pos 4) (omega arith) refl (omega arith)
