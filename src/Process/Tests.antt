-- ===== src/Process/Tests.antt =====
-- The theorems on student-distrib/sys_calls.c's processes at a small image with one program.
use linux_based_os.Prelude.{
  ℕ, zero, suc, ◌+◌, ◌*◌, ◌<◌, ◌≡◌, refl, arith, ◌==◌, ==→eq, Bytes, [], ◌∷◌, some, inl, word, true,
  byte_at, Bool-cases, inr, ltb, if◌then◌else◌,
}
use linux_based_os.Prelude.Below.{all_below, all_below_lem}
use linux_based_os.Cstring.{codes}
use linux_based_os.Cstring.Scan.{HasLength}
use linux_based_os.Filesys.{Filesys, chars, load, inode_word, block}
use linux_based_os.Filesys.Image.{segment, mounted}
use linux_based_os.Filesys.Dentry.ByName.{NamesEnd}
use linux_based_os.Filesys.Data.{load_byte}
use linux_based_os.Filesys.Data.Contents.{file_size, file_byte}
use linux_based_os.Filesys.File.Open.{IsFirst}
use linux_based_os.Keyboard.{Keyboard}
use linux_based_os.Process.{
  Pcb, Machine, Locals, Iret, launched, copy_command, elf_text, new_files, sys_execute,
}
use linux_based_os.Process.Nested.{IsNested}
use linux_based_os.Process.Execute.{IsProgram, Entered, sys_execute-Entered, program_name}

-- One entry, "sh", with inode 1, whose 28 bytes are the magic bytes, 20 zeros and the address
-- 0x08048094, in data block 1.
abbrev program_image : Bytes
program_image i =
    segment 65536 (1 ∷ 0 ∷ 0 ∷ 0 ∷ 2 ∷ 0 ∷ 0 ∷ 0 ∷ 2 ∷ []) i
    + segment 65600 (codes "sh") i
    + segment 65632 (2 ∷ 0 ∷ 0 ∷ 0 ∷ 1 ∷ []) i
    + segment 73728 (28 ∷ 0 ∷ 0 ∷ 0 ∷ 1 ∷ []) i
    + segment 81920 (0x7F ∷ codes "ELF") i
    + segment 81944 (0x94 ∷ 0x80 ∷ 0x04 ∷ 0x08 ∷ []) i

abbrev disk : Filesys
disk = record mounted {
  mem = program_image;
  bblock = record { n_dir_entries = 1; n_inodes = 2; n_data_blocks = 2; reserved = 0 };
}

abbrev command : Bytes
command = segment 0 (codes "sh now")

abbrev blank_pcb : Pcb
blank_pcb = record {
  file_array = new_files;
  old_pcb_ptr = 0;
  input = λ j. 0;
  old_phys_addr = 0;
  old_esp0 = 0;
  old_ebp = 0;
}

abbrev stack : Locals
stack = record { file_name = λ j. 1; dentry = λ j. 0; header = λ j. 0; new_pcb = blank_pcb }

abbrev idle_keyboard : Keyboard
idle_keyboard = record {
  screen = record { screen_x = 0; screen_y = 0; mem = λ a. 0; outs = [] };
  pic = record { master_mask = 0xFF; slave_mask = 0xFF; outs = [] };
  interrupts = true;
  key_buf = λ j. 0;
  key_buf_index = 0;
  enter_flag = 0;
  dict = 0;
  ctrl_mode = 0;
  caps_mode = 0;
  shift_mode = 0;
  mode_flag = 0;
}

-- Before the first program; 0x97 are the flags of the page of programs.
abbrev machine : Machine
machine = record {
  fs = disk;
  keyboard = idle_keyboard;
  rtc_interrupt = 0;
  pcbs = λ a. blank_pcb;
  cur_pcb = 0;
  process_number = 0;
  paging = record {
    page_directory = λ k. 0x97;
    page_table_0 = λ k. 0;
    page_table_1 = λ k. 0;
    directory_loaded = true;
    size_extensions = true;
    global_pages = true;
    paging = true;
  };
  esp0 = 0x800000;
  ebp = 0;
  frames = λ f a. 0;
}

machine-IsNested : IsNested machine
machine-IsNested = record {
  few = omega arith;
  current = refl;
  present = refl;
  frame = refl;
  stack = refl;
  parents = λ n h. absurd (omega arith);
}

abbrev name : Bytes
name = program_name stack command

name_eq : (j : ℕ) → j < 3 → byte_at name j ≡ byte_at (chars disk 64) j
unfolding all_below copy_command chars
name_eq j p =
    ==→eq _ _ (all_below_lem 3 (λ q. byte_at name q == byte_at (chars disk 64) q) j refl p)

name_2 : byte_at name 2 ≡ 0
unfolding copy_command
name_2 = refl

name-HasLength : HasLength name 2
unfolding copy_command
name-HasLength = record { ends = refl; before = λ j p. ground arith }

entry_1 : HasLength (chars disk 64) 2
unfolding chars
entry_1 = record { ends = refl; before = λ j p. ground arith }

names_end : NamesEnd disk 1 2
names_end zero p q = absurd (omega arith)
names_end (suc zero) p q = (2, entry_1, omega arith)
names_end (suc (suc k)) p q = absurd (omega arith)

name-IsFirst : IsFirst disk name 1
name-IsFirst = record {
  in_directory = (omega arith, omega arith);
  named = λ j p q r. elim (Bool-cases (ltb j 3)) [
    | inl e ↦ name_eq j (ground arith)
    | inr e ↦ absurd (r 2 (omega arith) (ground arith) name_2)
  ];
  first = λ i p q. absurd (omega arith);
}

program_size : file_size disk 1 ≡ 28
unfolding inode_word load word
program_size = refl

program_blocks : (b : ℕ) → b * 4096 < file_size disk 1 → inode_word disk 1 (b + 1) < 2
unfolding inode_word load word
program_blocks zero p = omega arith
program_blocks (suc b) p = absurd (omega (arith, program_size))

magic_bytes : (j : ℕ) → j < 4 → file_byte disk 1 j ≡ elf_text j
unfolding all_below file_byte load_byte block inode_word load word
magic_bytes j p = ==→eq _ _ (all_below_lem 4 (λ q. file_byte disk 1 q == elf_text q) j refl p)

sh-IsProgram : IsProgram machine stack command 1 6
unfolding load word
sh-IsProgram = record {
  searchable = record {
    mounted = omega arith;
    fname_len = 2;
    fname_ends = name-HasLength;
    short = omega arith;
    names_end = names_end;
  };
  first = name-IsFirst;
  regular = refl;
  known = omega arith;
  well_formed = record { fits = omega (arith, program_size); blocks = program_blocks };
  headed = omega (arith, program_size);
  large = omega (arith, program_size);
  magic = magic_bytes;
  ends = record { ends = refl; before = λ j p. ground arith };
  short = omega arith;
  fits = omega (arith, program_size);
}

sys_execute-Entered_example :
    (regs : Iret) × (child : Machine) × (sys_execute machine stack 0x7FFFF0 command
      ≡ some (launched regs child))
    × Entered machine stack command (load disk (64 * 1 + 36)) 6 regs child
sys_execute-Entered_example =
    sys_execute-Entered machine stack command 1 6 sh-IsProgram (omega arith) 0x7FFFF0
      machine-IsNested

-- The program runs.
sh_runs :
    (regs : Iret) × (child : Machine) × (sys_execute machine stack 0x7FFFF0 command
      ≡ some (launched regs child))
    × Entered machine stack command 1 6 regs child
unfolding load word
sh_runs =
    sys_execute-Entered machine stack command 1 6 sh-IsProgram (omega arith) 0x7FFFF0
      machine-IsNested

abbrev child : Machine
child = sh_runs.1

-- What is read for the status: 0x105 in the frame at 0x7FFFF0.
abbrev status_at : ℕ → ℕ
status_at ebp = if ebp == 0x7FFFF0 then 0x105 else 0

-- The name of a program that is not there.
abbrev other_command : Bytes
other_command = segment 0 (codes "no")
