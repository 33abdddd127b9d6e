-- ===== src/Process.antt =====
-- sys_execute_c and sys_halt_c of student-distrib/sys_calls.c. The process control blocks lie in
-- memory by address, and so do the frames of 4 MB that hold the programs, by the number of the
-- frame. `none` is a call that never returns, that goes through a null table, that
-- writes behind the array `input`, or that faults behind the page of programs.
pub mod Steps
pub mod Outcome
pub mod Nested
pub mod Reachable
pub mod Resume
pub mod Execute
pub mod Returns
pub mod Refuse
mod Tests
use linux_based_os.Prelude.{
  bind, map_some, ℕ, zero, suc, ◌+◌, ◌-◌, ◌*◌, ◌/◌, ◌%◌, ◌^◌, Bool, not, ◌||◌, ltb, leb, ◌==◌,
  if◌then◌else◌, Bytes, byte_at, update, shift, word, bit_and, bit_or, ℤ, pos, failure,
  is_minus_one, exceeds, true, List, [], ◌∷◌, Option, none, some, get_elem?,
}
use linux_based_os.Cstring.{codes, or_zero, strncmp, strcpy_loop}
use linux_based_os.Pcb.{FileArray, FileDesc, clear_fd, terminal_table, desc}
use linux_based_os.Filesys.{Filesys, Dentry, filetype, inode_num, reg_file}
use linux_based_os.Filesys.Dentry.{Looked, local, is_zero, read_dentry_by_name}
use linux_based_os.Filesys.Data.{read_data}
use linux_based_os.Keyboard.{Keyboard}
use linux_based_os.Keyboard.Terminal.{terminal_open}
use linux_based_os.Paging.{Paging, get_big_page}
use linux_based_os.Syscalls.{Kernel, dentry_of, close_ptr}

abbrev pub input_size : ℕ
input_size = 1024

-- `pcb_t`. The array `input` has `input_size` places.
pub record Pcb : Type 0 where
  pub file_array : FileArray
  pub old_pcb_ptr : ℕ
  pub input : Bytes
  pub old_phys_addr : ℕ
  pub old_esp0 : ℕ
  pub old_ebp : ℕ

-- The kernel with its processes: `pcbs` by address, `cur_pcb` an address, 0 for a null pointer,
-- `esp0` that of the `tss`, `ebp` the register, and `frames` the physical memory.
pub record Machine : Type 0 where
  pub fs : Filesys
  pub keyboard : Keyboard
  pub rtc_interrupt : ℕ
  pub pcbs : ℕ → Pcb
  pub cur_pcb : ℕ
  pub process_number : ℕ
  pub paging : Paging
  pub esp0 : ℕ
  pub ebp : ℕ
  pub frames : ℕ → Bytes

abbrev pub put {ℓ} : {A : Type ℓ} → (ℕ → A) → ℕ → A → ℕ → A
put f i v j = if j == i then v else f j

-- What the calls on descriptors work on: the file array is that of the current process.
abbrev pub kernel_of : Machine → Kernel
kernel_of m = record {
  fs = m.fs;
  files = (m.pcbs m.cur_pcb).file_array;
  keyboard = m.keyboard;
  rtc_interrupt = m.rtc_interrupt;
}

abbrev pub with_kernel : Machine → Kernel → Machine
with_kernel m k = record m {
  fs = k.fs;
  keyboard = k.keyboard;
  rtc_interrupt = k.rtc_interrupt;
  pcbs = put m.pcbs m.cur_pcb (record (m.pcbs m.cur_pcb) { file_array = k.files });
}

abbrev pub four_mb : ℕ
four_mb = 0x00400000

abbrev pub eight_mb : ℕ
eight_mb = 0x00800000

abbrev pub eight_kb : ℕ
eight_kb = 0x00002000

abbrev pub pro_idx : ℕ
pro_idx = 32

abbrev pub user_prog : ℕ
user_prog = 0x8048000

abbrev pub elf_text : Bytes
elf_text i = or_zero (get_elem? (0x7F ∷ codes "ELF") i)

-- The field `page_base_addr` in the word of a big page, its bits 22 to 31.
abbrev pub page_base : ℕ → ℕ
page_base entry = entry / 2 ^ 22 % 2 ^ 10

abbrev pub set_page_base : ℕ → ℕ → ℕ
set_page_base entry base = entry % 2 ^ 22 + base % 2 ^ 10 * 2 ^ 22

-- The assignment through the pointer that get_bigPage returned, and the flush behind it.
abbrev pub put_base : Paging → ℕ → ℕ → Paging
put_base p i base = record p {
  page_directory = update p.page_directory i (set_page_base (p.page_directory i) base);
  directory_loaded = true;
}

-- The loop that closes the descriptors in use.
abbrev pub close_one : Kernel → ℕ → Option Kernel
close_one k fd =
    if (desc k.files fd).flags % 2 == 0
    then some k
    else map_some (λ r. r.1) (close_ptr (desc k.files fd).file_op_ptr k (pos fd))

unfoldable pub close_all : ℕ → ℕ → Kernel → Option Kernel
close_all zero fd k = some k
close_all (suc left) fd k = bind (close_one k fd) (close_all left (fd + 1))

-- The end of sys_halt_c: what the process control block has kept of the parent. The frame pointer is
-- replaced before the return statement, so that what the compiled code reads for `status` may
-- depend on it: `status` is a function of the frame pointer, a constant one where the compiler has
-- read it before.
unfoldable pub restore : ℕ → (ℕ → ℕ) → Machine → ℤ × Machine
restore i status m =
    let cur = m.pcbs m.cur_pcb in
    (
      pos (status cur.old_ebp % 2 ^ 8),
      record m {
        esp0 = cur.old_esp0;
        paging = put_base m.paging i cur.old_phys_addr;
        ebp = cur.old_ebp;
        cur_pcb = cur.old_pcb_ptr;
      },
    )

abbrev pub halt_page : Machine → (ℕ → ℕ) → Option ℕ → Option (ℤ × Machine)
halt_page m status none = some (failure, m)
halt_page m status (some i) =
    map_some (λ k. restore i status (with_kernel m k)) (close_all 8 0 (kernel_of m))

-- The count goes down before the page is looked for.
unfoldable pub sys_halt : Machine → (ℕ → ℕ) → Option (ℤ × Machine)
sys_halt m status =
    if m.process_number == 0
    then some (failure, m)
    else halt_page (record m { process_number = m.process_number - 1 }) status
        (get_big_page m.paging pro_idx)

-- What the local variables of sys_execute_c hold on the stack before they are written.
pub record Locals : Type 0 where
  pub file_name : Bytes
  pub dentry : Dentry
  pub header : Bytes
  pub new_pcb : Pcb

abbrev pub ends_name : ℕ → Bool
ends_name c = (c == b' ') || (c == 0) || (c == b'\n')

-- The loop that copies the name of the program, with the NUL behind it. After 33 rounds that NUL
-- is one place past the array.
unfoldable pub copy_command : ℕ → ℕ → Bytes → Bytes → Bytes
copy_command zero idx command file_name = update file_name idx 0
copy_command (suc left) idx command file_name =
    let rest = copy_command left (idx + 1) command (update file_name idx (byte_at command idx)) in
    if ends_name (byte_at command idx) then update file_name idx 0 else rest

-- The registers that the iret pops.
pub record Iret : Type 0 where
  pub eip : ℕ
  pub cs : ℕ
  pub esp : ℕ
  pub ss : ℕ

-- sys_execute_c returns -1, or it enters the program and comes back at its halt.
pub data Executed : Type 0 where
  refused : Machine → Executed
  launched : Iret → Machine → Executed

abbrev pub user_cs : ℕ
user_cs = 0x23

abbrev pub user_ds : ℕ
user_ds = 0x2B

abbrev pub kernel_ds : ℕ
kernel_ds = 0x18

abbrev pub iret_to : Bytes → Iret
iret_to header = record {
  eip = word header 24;
  cs = user_cs;
  esp = bit_or user_prog (four_mb - 4);
  ss = if bit_and user_cs 3 == 0 then kernel_ds else user_ds;
}

-- The frame for the next program.
unfoldable pub next_frame : ℕ → ℕ
next_frame n = bit_and (eight_mb + n * four_mb) 0xFFC00000 / 2 ^ 22

-- Memory with what is written through a pointer to `at`.
abbrev pub overlay : Bytes → ℕ → Bytes → Bytes
overlay old at new j = if leb at j then new (j - at) else old j

-- The copy of the program to its frame, through the page at 128 MB. A read of `n` bytes writes `n`
-- places and the NUL of a short read; behind the page it faults.
unfoldable pub load_program : Machine → ℕ → ℕ → Option Bytes
load_program m inode base =
    let at = user_prog % 2 ^ 22 in
    let v_ptr = shift (m.frames base) at in
    let r = read_data m.fs (kernel_of m).files inode 0 (some v_ptr) four_mb failure in
    if exceeds r.ret (four_mb - at - 1) then none else some (overlay (m.frames base) at r.buf)

abbrev pub terminal_desc : FileDesc
terminal_desc = record { file_op_ptr = terminal_table; inode = 0; file_pos = 0; flags = 0x7 }

abbrev pub new_files : FileArray
new_files =
    terminal_desc ∷ terminal_desc ∷ clear_fd ∷ clear_fd ∷ clear_fd ∷ clear_fd ∷ clear_fd ∷ clear_fd
    ∷ []

-- `new_pcb` when it is copied to its place, and the frame pointer that is saved in it there.
abbrev pub new_pcb : Machine → ℕ → Bytes → ℕ → Pcb
new_pcb m ebp input i = record {
  file_array = new_files;
  old_pcb_ptr = m.cur_pcb;
  input = input;
  old_phys_addr = page_base (m.paging.page_directory i);
  old_esp0 = m.esp0;
  old_ebp = ebp;
}

-- The new process, once the page of programs is found at index `i` of the directory, and `loaded` is
-- its frame with the program in it.
unfoldable pub launch : Machine → ℕ → Bytes → Bytes → Bytes → ℕ → Executed
launch m ebp loaded input header i =
    let n = m.process_number in
    let paging = put_base m.paging i (next_frame n) in
    let base = page_base (paging.page_directory i) in
    let at = eight_mb - n * eight_kb - eight_kb in
    launched (iret_to header) (record m {
      keyboard = (terminal_open m.keyboard (λ j. or_zero (get_elem? (codes "temp") j))).1;
      pcbs = put m.pcbs at (new_pcb m ebp input i);
      cur_pcb = at;
      process_number = n + 1;
      paging = paging;
      esp0 = eight_mb - (n + 1) * eight_kb;
      frames = put m.frames base loaded;
    })

-- The frame that the page of programs leads to once it is that of the new process.
abbrev pub next_page : Machine → ℕ → ℕ
next_page m i = page_base ((put_base m.paging i (next_frame m.process_number)).page_directory i)

abbrev pub launch_page : Machine → ℕ → ℕ → Bytes → Bytes → Option ℕ → Option Executed
launch_page m ebp inode input header none = some (refused m)
launch_page m ebp inode input header (some i) =
    map_some (λ loaded. launch m ebp loaded input header i) (load_program m inode (next_page m i))

-- strcpy to the array `input`: a round writes one place, and a command that does not end within
-- the array is written behind it.
unfoldable pub copy_input : Bytes → Bytes → Option Bytes
copy_input input command = strcpy_loop input_size 0 input command

-- sys_execute_c, once read_dentry_by_name has returned. With -1 for a descriptor read_data leaves
-- the file array alone.
unfoldable pub execute_found : Machine → Locals → ℕ → Bytes → Looked → Option Executed
execute_found m l ebp command looked =
    let m' = record m { fs = looked.fs } in
    let d = dentry_of looked.dest l.dentry in
    let h = read_data m'.fs (kernel_of m').files (inode_num d) 0 (some l.header) 32 failure in
    if is_minus_one looked.ret
    then some (refused m')
    else if not (filetype d == reg_file)
    then some (refused m')
    else if is_minus_one h.ret
    then some (refused m')
    else if not (is_zero (strncmp elf_text h.buf 4))
    then some (refused m')
    else bind (copy_input l.new_pcb.input command)
        (λ input. launch_page m' ebp (inode_num d) input h.buf (get_big_page m'.paging pro_idx))

-- `ebp` is the frame pointer of the call.
unfoldable pub sys_execute : Machine → Locals → ℕ → Bytes → Option Executed
sys_execute m l ebp command =
    if leb 6 m.process_number
    then some (refused m)
    else bind
        (read_dentry_by_name m.fs (some (copy_command 33 0 command l.file_name)) (local l.dentry))
        (execute_found m l ebp command)
