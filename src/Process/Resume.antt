-- ===== src/Process/Resume.antt =====
-- A program comes back to its parent: sys_execute_c and sys_halt_c of student-distrib/sys_calls.c
-- with any run of the child in between.
use linux_based_os.Prelude.{ℕ, ◌+◌, ◌-◌, ◌%◌, ◌^◌, ◌≤◌, ◌<◌, ◌≡◌, ℤ, pos}
use linux_based_os.Filesys.{Filesys}
use linux_based_os.Process.{Machine, pro_idx, page_base, Executed, refused, launched}
use linux_based_os.Process.Nested.{IsNested, pcb_of, frame_of}

-- What the levels up to `depth` and their child keep from one state to another.
pub record Kept (depth : ℕ) (m n : Machine) : Type 0 where
  pub pcbs : (i : ℕ) → i ≤ depth → n.pcbs (pcb_of i) ≡ m.pcbs (pcb_of i)
  pub frames : (i : ℕ) → i ≤ depth → n.frames (frame_of i) ≡ m.frames (frame_of i)
  pub old_ebp : (n.pcbs (pcb_of (depth + 1))).old_ebp ≡ (m.pcbs (pcb_of (depth + 1))).old_ebp

-- What a run keeps that stays above `depth`.
record Ran (depth : ℕ) (m n : Machine) : Type 0 where
  nested : IsNested n
  above : depth < n.process_number
  kept : Kept depth m n

-- What sys_execute_c leaves where it enters a program.
record Launched (m : Machine) (ebp : ℕ) (child : Machine) : Type 0 where
  number : child.process_number ≡ m.process_number + 1
  pcbs : (i : ℕ) → i ≤ m.process_number → child.pcbs (pcb_of i) ≡ m.pcbs (pcb_of i)
  frames : (i : ℕ) → i ≤ m.process_number → child.frames (frame_of i) ≡ m.frames (frame_of i)
  old_ebp : (child.pcbs (pcb_of (m.process_number + 1))).old_ebp ≡ ebp

abbrev OnLaunched : Machine → ℕ → Executed → Type 0
OnLaunched m ebp (refused m') = Unit {0}
OnLaunched m ebp (launched regs child) = Launched m ebp child

-- What sys_halt_c leaves of the state of the process that ends.
record Halted (m : Machine) (status : ℕ → ℕ) (r : ℤ × Machine) : Type 0 where
  ret : r.0 ≡ pos (status (m.pcbs m.cur_pcb).old_ebp % 2 ^ 8)
  number : r.1.process_number ≡ m.process_number - 1
  ebp : r.1.ebp ≡ (m.pcbs m.cur_pcb).old_ebp

-- The state of the parent when its child has ended.
pub record Resumed (m : Machine) (ebp : ℕ) (status : ℕ → ℕ) (r : ℤ × Machine) : Type 0 where
  pub ret : r.0 ≡ pos (status ebp % 2 ^ 8)
  pub number : r.1.process_number ≡ m.process_number
  pub current : r.1.cur_pcb ≡ m.cur_pcb
  pub stack : r.1.esp0 ≡ m.esp0
  pub frame :
      page_base (r.1.paging.page_directory pro_idx) ≡ page_base (m.paging.page_directory pro_idx)
  pub base_pointer : r.1.ebp ≡ ebp
  pub pcbs : (i : ℕ) → i ≤ m.process_number → r.1.pcbs (pcb_of i) ≡ m.pcbs (pcb_of i)
  pub frames : (i : ℕ) → i ≤ m.process_number → r.1.frames (frame_of i) ≡ m.frames (frame_of i)
