-- ===== src/Process/Execute.antt =====
-- sys_execute_c of student-distrib/sys_calls.c on a program of the image.
use linux_based_os.Prelude.{
  ℕ, ◌+◌, ◌-◌, ◌*◌, ◌%◌, ◌^◌, ◌≤◌, ◌<◌, ◌≡◌, refl, ap, sym, ◌∙◌, arith, min, true, false, ◌==◌,
  Bytes, byte_at, shift, word, pos, failure, is_minus_one, exceeds, some, eq→==, lt→leb, le→leb,
}
use mathlib.Core.Path.{subst}
use linux_based_os.Cstring.{strncmp}
use linux_based_os.Cstring.Scan.{HasLength}
use linux_based_os.Cstring.Copy.{strcpy_loop_fits}
use linux_based_os.Cstring.Compare.{strncmp_iff}
use linux_based_os.Pcb.{FileArray}
use linux_based_os.Filesys.{Filesys, Dentry, load, inode_word, reg_file, filetype, inode_num}
use linux_based_os.Filesys.Dentry.{Looked, is_zero}
use linux_based_os.Filesys.Dentry.Fill.{entry_inode}
use linux_based_os.Filesys.Dentry.Lookup.{IsSearchable}
use linux_based_os.Filesys.Data.{read_data}
use linux_based_os.Filesys.Data.Read.{Delivers}
use linux_based_os.Filesys.Data.Contents.{file_size, file_byte, IsWellFormed}
use linux_based_os.Filesys.Data.Program.{program_read-Delivers}
use linux_based_os.Filesys.File.Open.{IsFirst}
use linux_based_os.Syscalls.{dentry_of}
use linux_based_os.Syscalls.Image.{buffers, SameImage-buffers, Delivers-buffers, file_size-buffers}
use linux_based_os.Syscalls.Lookup.{lookup_local}
use linux_based_os.Process.{
  Machine, Locals, Iret, launched, kernel_of, copy_command, sys_execute, execute_found, launch,
  load_program, new_pcb, eight_mb, eight_kb, put, page_base, put_base, next_frame, elf_text,
  new_files, four_mb, pro_idx, user_prog, input_size, next_page, copy_input, overlay,
}
use linux_based_os.Process.Nested.{IsNested, frame_of, put_self, next_base}
use linux_based_os.Process.Reachable.{present-page}

-- The name that sys_execute_c looks for.
abbrev pub program_name : Locals → Bytes → Bytes
program_name l command = copy_command 33 0 command l.file_name

-- A command of at most 1023 characters whose first word names a program of the image: a regular
-- file that begins with the magic bytes, of at least 28 bytes, and with its NUL not past the end of
-- the page. Its length is no number of a data block.
pub record IsProgram (m : Machine) (l : Locals) (command : Bytes) (entry len : ℕ) : Type 0 where
  pub searchable : IsSearchable m.fs (program_name l command)
  pub first : IsFirst m.fs (program_name l command) entry
  pub regular : load m.fs (64 * entry + 32) ≡ reg_file
  pub known : load m.fs (64 * entry + 36) < m.fs.bblock.n_inodes
  pub well_formed : IsWellFormed m.fs (load m.fs (64 * entry + 36))
  pub headed : 28 ≤ file_size m.fs (load m.fs (64 * entry + 36))
  pub large : m.fs.bblock.n_data_blocks ≤ file_size m.fs (load m.fs (64 * entry + 36))
  pub magic : (j : ℕ) → j < 4 → file_byte m.fs (load m.fs (64 * entry + 36)) j ≡ elf_text j
  pub ends : HasLength command len
  pub short : len < input_size
  pub fits : file_size m.fs (load m.fs (64 * entry + 36)) < four_mb - user_prog % 2 ^ 22

module _ (fs : Filesys) (a b : Dentry) (c : Bytes) (inode : ℕ) where
  IsWellFormed-buffers : IsWellFormed fs inode → IsWellFormed (buffers fs a b c) inode
  unfolding inode_word load
  IsWellFormed-buffers v = record { fits = v.fits; blocks = v.blocks }

  -- A read without a descriptor, in a state with the same image.
  pub program_read :
      (files : FileArray) (n : ℕ) (buf : Bytes)
      → IsWellFormed fs inode
      → inode < fs.bblock.n_inodes
      → 0 < file_size fs inode
      → fs.bblock.n_data_blocks ≤ file_size fs inode
      → 0 < n
      → n < 2 ^ 31
      → Delivers fs inode 0
          (min n (file_size fs inode))
          buf
          (read_data (buffers fs a b c) files inode 0 (some buf) n failure)
  program_read files n buf wf known more big nz small =
      let same = file_size-buffers fs a b c inode in
      let d =
        program_read-Delivers (buffers fs a b c) inode files n buf (IsWellFormed-buffers wf) known
          (omega (arith, same, more)) (omega (arith, same, big)) nz small in
      Delivers-buffers fs a b c inode 0 _ buf _ (
        subst
          (λ q.
            Delivers (buffers fs a b c) inode 0 (min n q) buf
              (read_data (buffers fs a b c) files inode 0 (some buf) n failure))
          same d)

-- What the new process starts with: its registers, its descriptors, its input and its program.
pub record Entered (m : Machine) (l : Locals) (command : Bytes) (inode len : ℕ) (regs : Iret)
    (child : Machine) : Type 0 where
  pub eip : regs.eip ≡ word (file_byte m.fs inode) 24
  pub esp : regs.esp ≡ 0x083FFFFC
  pub user_mode : (regs.cs ≡ 0x23) × (regs.ss ≡ 0x2B)
  pub number : child.process_number ≡ m.process_number + 1
  pub files : (child.pcbs child.cur_pcb).file_array ≡ new_files
  pub input : (j : ℕ) → j < len → (child.pcbs child.cur_pcb).input j ≡ byte_at command j
  pub input_ends : (child.pcbs child.cur_pcb).input len ≡ 0
  pub input_rest : (j : ℕ) → len < j → (child.pcbs child.cur_pcb).input j ≡ l.new_pcb.input j
  pub program :
      (j : ℕ)
      → j < file_size m.fs inode
      → child.frames (frame_of child.process_number) (user_prog % 2 ^ 22 + j)
        ≡ file_byte m.fs inode j

module _ (m : Machine) (l : Locals) (command : Bytes) (entry len : ℕ)
    (w : IsProgram m l command entry len) (few : m.process_number < 6) where
  abbrev inode : ℕ
  inode = load m.fs (64 * entry + 36)

  module _ (a b : Dentry) (c : Bytes) where
    abbrev moved : Machine
    moved = record m { fs = buffers m.fs a b c }

    header_read :
        Delivers m.fs inode 0
          (min 32 (file_size m.fs inode))
          l.header
          (read_data moved.fs (kernel_of moved).files inode 0 (some l.header) 32 failure)
    header_read =
        program_read m.fs a b c inode (kernel_of moved).files 32 l.header w.well_formed w.known
          (omega (arith, w.headed)) w.large (omega arith) (omega arith)

    magic_found :
        (h : Bytes)
        → ((j : ℕ) → j < 28 → h j ≡ file_byte m.fs inode j)
        → strncmp elf_text h 4 ≡ pos 0
    magic_found h e =
        (strncmp_iff elf_text h 4).1
          (λ j p q r. ap (λ x. x % 2 ^ 8) (sym (e j (omega arith) ∙ w.magic j q)))

    header_word :
        (h : Bytes)
        → ((j : ℕ) → j < 28 → h j ≡ file_byte m.fs inode j)
        → word h 24 ≡ word (file_byte m.fs inode) 24
    unfolding word
    header_word h e = ground (arith, e 24, e 25, e 26, e 27)

    program_loaded :
        (base : ℕ)
        → (loaded : Bytes) × (load_program moved inode base ≡ some loaded)
          × ((j : ℕ)
              → j < file_size m.fs inode
              → loaded (user_prog % 2 ^ 22 + j) ≡ file_byte m.fs inode j)
    unfolding load_program
    program_loaded base =
        let at = user_prog % 2 ^ 22 in
        let v_ptr = shift (m.frames base) at in
        let d =
          program_read m.fs a b c inode (kernel_of moved).files four_mb v_ptr w.well_formed w.known
            (omega (arith, w.headed)) w.large (omega arith) (omega arith) in
        let inside : exceeds (pos (min four_mb (file_size m.fs inode))) (four_mb - at - 1) ≡ false =
          ground (arith, w.fits) in
        (
          overlay (m.frames base) at
              (read_data moved.fs (kernel_of moved).files inode 0 (some v_ptr) four_mb failure).buf,
          rw (d.ret, inside) refl,
          λ j p.
              let off : at + j - at ≡ j = omega arith in
              rw (le→leb at (at + j) (omega arith), off)
                (d.bytes j (omega (arith, w.fits)) ∙ ap (file_byte m.fs inode) (omega arith)),
        )

    launched-Entered :
        (ebp : ℕ) (loaded input h : Bytes)
        → ((j : ℕ)
            → j < file_size m.fs inode
            → loaded (user_prog % 2 ^ 22 + j) ≡ file_byte m.fs inode j)
        → ((j : ℕ) → j < 28 → h j ≡ file_byte m.fs inode j)
        → ((j : ℕ) → j < len → input j ≡ byte_at command j)
        → input len ≡ 0
        → ((j : ℕ) → len < j → input j ≡ l.new_pcb.input j)
        → (regs : Iret) × (child : Machine) × (launch moved ebp loaded input h pro_idx
            ≡ launched regs child)
          × Entered m l command inode len regs child
    unfolding launch
    launched-Entered ebp loaded input h hl he hi hn hr =
        let base =
          page_base
            ((put_base m.paging pro_idx (next_frame m.process_number)).page_directory pro_idx) in
        let at = eight_mb - m.process_number * eight_kb - eight_kb in
        let new = new_pcb m ebp input pro_idx in
        let same : frame_of (m.process_number + 1) ≡ base = ground (arith, next_base m few) in
        (
          _,
          _,
          refl,
          record {
            eip = header_word h he;
            esp = refl;
            user_mode = (refl, refl);
            number = refl;
            files = ap (λ p. p.file_array) (put_self m.pcbs at new);
            input = λ j p. ap (λ q. q.input j) (put_self m.pcbs at new) ∙ hi j p;
            input_ends = ap (λ q. q.input len) (put_self m.pcbs at new) ∙ hn;
            input_rest = λ j p. ap (λ q. q.input j) (put_self m.pcbs at new) ∙ hr j p;
            program = λ j p.
                ap (λ f. f (user_prog % 2 ^ 22 + j))
                  (ap (λ i. put m.frames base loaded i) same ∙ put_self m.frames base loaded)
                ∙ hl j p;
          },
        )

    found-Entered :
        (ebp : ℕ) (looked : Looked)
        → IsNested m
        → looked.ret ≡ pos 0
        → filetype (dentry_of looked.dest l.dentry) ≡ load m.fs (64 * entry + 32)
        → inode_num (dentry_of looked.dest l.dentry) ≡ entry_inode m.fs entry
        → (regs : Iret) × (child : Machine) × (execute_found m l ebp command
              (record looked { fs = buffers m.fs a b c })
            ≡ some (launched regs child))
          × Entered m l command inode len regs child
    unfolding execute_found copy_input
    found-Entered ebp looked v ret type ino =
        let d = dentry_of looked.dest l.dentry in
        let e1 : is_minus_one looked.ret ≡ false = ap is_minus_one ret in
        let e2 : (filetype d == reg_file) ≡ true = eq→== _ _ (type ∙ w.regular) in
        let e3 : inode_num d ≡ inode = ino ∙ rw (eq→== _ _ w.regular) refl in
        let h = header_read in
        let hb = λ (j : ℕ) (p : j < 28).
          h.bytes j (omega (arith, w.headed)) ∙ ap (file_byte m.fs inode) (omega arith) in
        let e4 = ap is_minus_one h.ret in
        let e5 = ap is_zero (magic_found _ hb) in
        let (input, e6, hi, hn, hr) =
          strcpy_loop_fits input_size l.new_pcb.input command len w.ends w.short in
        let (loaded, e8, hl) = program_loaded (next_page m pro_idx) in
        let (regs, child, e7, entered) = launched-Entered ebp loaded input _ hl hb hi hn hr in
        (
          regs,
          child,
          rw (e1, e2, e3, e4, e5, e6, present-page m.paging v.present, e8, e7) refl,
          entered,
        )

  -- Where the processes form a stack of less than six, a process executes a command of at most 1023
  -- characters whose first word names a program of the image: a regular file that begins with the
  -- magic bytes, has 28 bytes at least, ends before its page does, and has a length that is no
  -- number of a data block. The call enters the program in user mode at the address that bytes 24
  -- to 27 of its file give, with the stack at the end of its page. The new process has the terminal
  -- for its first two descriptors and six closed ones, and the command with its NUL at the start of
  -- its input, the rest of which is what the stack held there. The bytes of the file are in its
  -- frame from offset 0x48000 on, where the address 0x08048000 leads.
  pub sys_execute-Entered :
      (ebp : ℕ)
      → IsNested m
      → (regs : Iret) × (child : Machine) × (sys_execute m l ebp command
          ≡ some (launched regs child))
        × Entered m l command (load m.fs (64 * entry + 36)) len regs child
  unfolding sys_execute
  sys_execute-Entered ebp v =
      let (looked, e, img, r, ty, ino) =
        lookup_local m.fs (program_name l command) l.dentry entry w.searchable w.first in
      let same = SameImage-buffers m.fs looked.fs img in
      let (regs, child, found, entered) =
        found-Entered looked.fs.open_dentry looked.fs.read_dentry looked.fs.filename_buf ebp looked
          v r ty ino in
      (
        regs,
        child,
        rw (lt→leb 6 m.process_number few, e)
            (ap (λ fs. execute_found m l ebp command (record looked { fs = fs })) same ∙ found),
        entered,
      )
