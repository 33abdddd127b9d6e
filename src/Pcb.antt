-- ===== src/Pcb.antt =====
-- The process control block of student-distrib/pcb.h: the file array of the current process.
use linux_based_os.Prelude.{
  ℕ, zero, suc, ◌+◌, ◌%◌, ◌<◌, ◌≤◌, ◌⊎◌, inl, inr, Bool-cases, ◌≡◌, List, ℤ, pos, negsuc, get_elem?,
  set, Option, none, some, length, ◌==◌, if◌then◌else◌, arith, get_elem?-set_self, get_elem?-set_ne,
  ◌≢◌,
}

-- The jump table that `file_op_ptr` points to.
pub data FileOps : Type 0 where
  no_table rtc_table dir_table file_table terminal_table : FileOps

-- `file_desc_t`
pub record FileDesc : Type 0 where
  pub file_op_ptr : FileOps
  pub inode : ℕ
  pub file_pos : ℕ
  pub flags : ℕ

-- The global `clear_fd`, zero as all globals are at the start.
abbrev pub clear_fd : FileDesc
clear_fd = record { file_op_ptr = no_table; inode = 0; file_pos = 0; flags = 0 }

-- `cur_pcb->file_array`; it has 8 entries.
abbrev pub FileArray : Type 0
FileArray = List FileDesc

abbrev pub or_clear : Option FileDesc → FileDesc
or_clear none = clear_fd
or_clear (some f) = f

-- An access outside the array reads a cleared entry and writes nothing.
abbrev pub desc : FileArray → ℕ → FileDesc
desc files i = or_clear (get_elem? files i)

-- The index that a descriptor number stands for; a negative one lies outside the array.
abbrev pub index : ℤ → ℕ
index (pos n) = n
index (negsuc n) = 8

-- The loop that looks for an entry with its in-use bit clear, from entry `i` on.
unfoldable pub find_unused : ℕ → ℕ → FileArray → ℕ
find_unused zero i files = i
find_unused (suc left) i files =
    let rest = find_unused left (i + 1) files in if (desc files i).flags % 2 == 0 then i else rest

pub desc-set_self :
    (files : FileArray) (i : ℕ) (f : FileDesc) → i < length files → desc (set files i f) i ≡ f
desc-set_self files i f h = ground (arith, get_elem?-set_self files i f h)

pub desc-set_ne :
    (files : FileArray) (i j : ℕ) (f : FileDesc) → i ≢ j → desc (set files i f) j ≡ desc files j
desc-set_ne files i j f h = ground (arith, get_elem?-set_ne files i j f h)

-- The search ends at the first unused entry, or past the last one.
pub find_unused-first :
    (left i : ℕ) (files : FileArray) (j : ℕ)
    → i ≤ j
    → j < find_unused left i files
    → (desc files j).flags % 2 ≢ 0
unfolding find_unused
find_unused-first zero i files j p q = absurd (omega arith)
find_unused-first (suc left) i files j p q = elim (Bool-cases (i == j)) [
  | inl e ↦ ground arith
  | inr e ↦ ground (arith, find_unused-first left (i + 1) files j)
]

pub find_unused-free :
    (left i : ℕ) (files : FileArray)
    → find_unused left i files < i + left
    → (desc files (find_unused left i files)).flags % 2 ≡ 0
unfolding find_unused
find_unused-free zero i files p = absurd (omega arith)
find_unused-free (suc left) i files p = elim (Bool-cases ((desc files i).flags % 2 == 0)) [
  | inl e ↦ rw e (ground arith)
  | inr e ↦ rw e (find_unused-free left (i + 1) files (ground arith))
]

pub le-find_unused : (left i : ℕ) (files : FileArray) → i ≤ find_unused left i files
unfolding find_unused
le-find_unused zero i files = omega arith
le-find_unused (suc left) i files = ground (arith, le-find_unused left (i + 1) files)

pub find_unused-le : (left i : ℕ) (files : FileArray) → find_unused left i files ≤ i + left
unfolding find_unused
find_unused-le zero i files = omega arith
find_unused-le (suc left) i files = ground (arith, find_unused-le left (i + 1) files)

-- An unused entry bounds the search.
pub find_unused-le_unused :
    (left i : ℕ) (files : FileArray) (j : ℕ)
    → i ≤ j
    → (desc files j).flags % 2 ≡ 0
    → (find_unused left i files ≤ j) ⊎ (i + left ≤ j)
unfolding find_unused
find_unused-le_unused zero i files j p q = inr (omega arith)
find_unused-le_unused (suc left) i files j p q = elim (Bool-cases (i == j)) [
  | inl e ↦ inl (ground arith)
  | inr e ↦ ground (arith, find_unused-le_unused left (i + 1) files j)
]
