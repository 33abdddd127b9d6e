-- ===== src/Process/Returns.antt =====
-- The calls of student-distrib/sys_calls.c go through no null table in any state that is reached.
use linux_based_os.Prelude.{
  OnSome, ℕ, zero, suc, ◌%◌, ◌^◌, ◌≤◌, ◌≡◌, refl, ap, sym, arith, Bytes, ℤ, pos, some, none, shift,
  [], ◌∷◌,
}
use mathlib.Core.Path.{subst}
use linux_based_os.Pcb.{clear_fd, desc}
use linux_based_os.Filesys.{Filesys}
use linux_based_os.Syscalls.{Kernel, Called}
use linux_based_os.Syscalls.Tabled.{IsTabled, Tabled}
use linux_based_os.Syscalls.Tabled.Calls.{
  sys_read-Tabled, sys_open-Tabled, sys_write-Returns, sys_close-Returns,
}
use linux_based_os.Process.{Pcb, Machine, kernel_of, new_files}
use linux_based_os.Process.Steps.{Call, own, read, read_null, write, open_file, close_file, keys}
use linux_based_os.Process.Nested.{IsNested, pcb_of}

pub Call-Tabled :
    {page page' : Bytes} {k k' : Kernel} → Tabled k.files → Call page k page' k' → Tabled k'.files
Call-Tabled v (own mem h) = v
Call-Tabled {page} {page'} {k} v (read ev fd at nbytes {c} e h) =
    subst (OnSome (λ c. Tabled c.kernel.files)) e
      (sys_read-Tabled k ev fd (some (shift page at)) nbytes v)
Call-Tabled {page} {page'} {k} v (read_null ev fd nbytes {c} e) =
    subst (OnSome (λ c. Tabled c.kernel.files)) e (sys_read-Tabled k ev fd none nbytes v)
Call-Tabled {page} {page'} {k} v (write ev fd buf nbytes {c} e) =
    let (c', e', same) = sys_write-Returns k ev fd buf nbytes v in
    let P = λ (c : Called). Tabled c.kernel.files in
    subst (OnSome P) e (subst (OnSome P) (sym e') (subst Tabled (sym same) v))
Call-Tabled {page} {page'} {k} v (open_file ev junk filename {r} e) =
    subst (OnSome (λ r. Tabled r.1.files)) e (sys_open-Tabled k ev junk filename v)
Call-Tabled {page} {page'} {k} v (close_file fd {r} e) =
    let (r', e', w) = sys_close-Returns k fd v in
    let P = λ (r : ℤ × Kernel). Tabled r.1.files in subst (OnSome P) e (subst (OnSome P) (sym e') w)
Call-Tabled v (keys inputs) = v

cleared_tail :
    (j : ℕ)
    → desc (clear_fd ∷ clear_fd ∷ clear_fd ∷ clear_fd ∷ clear_fd ∷ clear_fd ∷ []) j ≡ clear_fd
cleared_tail zero = refl
cleared_tail (suc zero) = refl
cleared_tail (suc (suc zero)) = refl
cleared_tail (suc (suc (suc zero))) = refl
cleared_tail (suc (suc (suc (suc zero)))) = refl
cleared_tail (suc (suc (suc (suc (suc zero))))) = refl
cleared_tail (suc (suc (suc (suc (suc (suc j)))))) = refl

new_entry : (j : ℕ) → IsTabled (desc new_files j)
new_entry zero odd e = grind arith
new_entry (suc zero) odd e = grind arith
new_entry (suc (suc j)) odd e = absurd (odd (ap (λ f. f.flags % 2) (cleared_tail j)))

pub new_files-Tabled : Tabled new_files
new_files-Tabled = record { size = refl; has_table = new_entry }

-- The descriptors of every process have tables.
pub record AllTabled (m : Machine) : Type 0 where
  pub at_level : (i : ℕ) → i ≤ m.process_number → Tabled (m.pcbs (pcb_of i)).file_array

module _ {m : Machine} (v : IsNested m) (w : AllTabled m) where
  pub current-Tabled : Tabled (kernel_of m).files
  current-Tabled =
      subst (λ j. Tabled (m.pcbs j).file_array) (sym v.current)
        (w.at_level m.process_number (omega arith))

-- The value with which the current process halts, read with the frame pointer of its parent.
abbrev pub halted_with : Machine → (ℕ → ℕ) → ℤ
halted_with m status = pos (status (m.pcbs m.cur_pcb).old_ebp % 2 ^ 8)
