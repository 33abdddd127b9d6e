-- ===== src/Filesys/Tests.antt =====
-- The theorems on files of student-distrib/filesys.c at the image of Filesys.Image.
use linux_based_os.Prelude.{ℕ, ◌<◌, ◌≤◌, ◌≡◌, ◌⊎◌, arith, some, pos, failure, [], ◌∷◌}
use linux_based_os.Pcb.{find_unused}
use linux_based_os.Filesys.{Dentry}
use linux_based_os.Filesys.Dentry.ByName.{SameName}
use linux_based_os.Filesys.Dentry.Lookup.{Reports, SameImage, by_name-Reports, by_name-Describes}
use linux_based_os.Filesys.Dentry.{local, global_open, Looked, read_dentry_by_name}
use linux_based_os.Filesys.Dentry.Fill.{Describes}
use linux_based_os.Filesys.File.{Opened, file_read, file_open}
use linux_based_os.Filesys.File.Read.{IsRead, available, file_read-IsRead}
use linux_based_os.Filesys.File.Sequence.{read_calls, slice, total, read_calls-slice}
use linux_based_os.Filesys.File.Open.{OpenOutcome, file_open-OpenOutcome}
use linux_based_os.Filesys.Image.{
  mounted, fish, fish_files, free_files, open_fish, fish-IsSearchable, fish-IsOpen,
}

by_name-Reports_example :
    (out : Looked) × (read_dentry_by_name mounted (some fish) (local (λ j. 0)) ≡ some out)
    × (((out.ret ≡ failure) × ((k : ℕ) → 1 ≤ k → k ≤ 2 → ¬ SameName mounted fish k))
        ⊎ ((k : ℕ) × (len : ℕ) × (d' : Dentry) × (out.ret ≡ pos 0)
            × (out.dest ≡ local d')
            × Reports mounted fish k len (λ j. 0) d' out.fs))
by_name-Reports_example = by_name-Reports mounted fish (λ j. 0) fish-IsSearchable

by_name-Describes_example :
    (out : Looked) × (read_dentry_by_name mounted (some fish) global_open ≡ some out)
    × SameImage mounted out.fs
    × (((out.ret ≡ failure)
          × (out.fs.open_dentry ≡ mounted.open_dentry)
          × ((k : ℕ) → 1 ≤ k → k ≤ 2 → ¬ SameName mounted fish k))
        ⊎ ((k : ℕ) × (len : ℕ) × (out.ret ≡ pos 0)
            × (1 ≤ k)
            × (k ≤ 2)
            × SameName mounted fish k
            × ((i : ℕ) → 1 ≤ i → i < k → ¬ SameName mounted fish i)
            × Describes mounted k len out.fs.open_dentry))
by_name-Describes_example = by_name-Describes mounted fish fish-IsSearchable

file_read-IsRead_example :
    IsRead mounted fish_files 2 3
      (λ j. 0)
      (file_read mounted fish_files (pos 2) (some (λ j. 0)) (pos 3))
file_read-IsRead_example =
    file_read-IsRead mounted fish_files 2 3 (λ j. 0) (omega arith) fish-IsOpen (omega arith)

read_calls-slice_example :
    read_calls mounted fish_files 2 (2 ∷ 9 ∷ [])
    ≡ slice mounted 1 0 (available mounted open_fish 11)
unfolding total
read_calls-slice_example =
    read_calls-slice mounted fish_files 2 (2 ∷ 9 ∷ []) (omega arith) fish-IsOpen
      (omega arith, (omega arith, tt))

file_open-OpenOutcome_example :
    (out : Opened) × (file_open mounted free_files (some fish) ≡ some out)
    × SameImage mounted out.fs
    × OpenOutcome mounted free_files fish out
unfolding find_unused
file_open-OpenOutcome_example =
    file_open-OpenOutcome mounted free_files fish fish-IsSearchable (omega arith)
