-- ===== src/Filesys/File/Open.antt =====
-- file_open and file_close of student-distrib/filesys.c.
use linux_based_os.Prelude.{
  ℕ, ◌+◌, ◌*◌, ◌%◌, ◌^◌, ◌<◌, ◌≤◌, ◌≡◌, ◌≢◌, ◌⊎◌, inl, inr, refl, ap, sym, ◌∙◌, arith, some, Bytes,
  pos, failure, length, set, eq→==, ne→==, lt→leb,
}
use native.Mathlib.Decide.{ℕ_discrete}
use linux_based_os.Pcb.{FileDesc, FileArray, desc, desc-set_self, desc-set_ne, find_unused}
use linux_based_os.Filesys.{Filesys, reg_file, load, filetype, inode_num}
use linux_based_os.Filesys.Dentry.{Looked}
use linux_based_os.Filesys.Dentry.Fill.{Describes}
use linux_based_os.Filesys.Dentry.ByName.{SameName}
use linux_based_os.Filesys.Dentry.Lookup.{IsSearchable, SameImage, by_name-Describes}
use linux_based_os.Filesys.Data.{flags_idx}
use linux_based_os.Filesys.Data.Contents.{IsWellFormed}
use linux_based_os.Filesys.File.{
  Opened, file_open, file_open_found, file_close, clear_names, open_failed,
}
use linux_based_os.Filesys.File.Flags.{flags_type_lem}
use linux_based_os.Filesys.File.Read.{IsOpen}

-- Entry `k` is the first one of the name.
pub record IsFirst (fs : Filesys) (fname : Bytes) (k : ℕ) : Type 0 where
  pub in_directory : (1 ≤ k) × (k ≤ fs.bblock.n_dir_entries)
  pub named : SameName fs fname k
  pub first : (i : ℕ) → 1 ≤ i → i < k → ¬ SameName fs fname i

-- A fresh descriptor on the file of entry `k`.
abbrev pub fresh : Filesys → ℕ → FileDesc → FileDesc
fresh fs k f = record f { inode = load fs (64 * k + 36); file_pos = 0; flags = 0x105 }

-- How file_open ends where a descriptor is free: the first entry of the name is a regular file
-- and is opened, or there is no such entry, or it is no regular file.
pub data OpenOutcome (fs : Filesys) (files : FileArray) (fname : Bytes) (out : Opened)
    : Type 0 where
  opened :
      (k : ℕ)
      → IsFirst fs fname k
      → load fs (64 * k + 32) ≡ reg_file
      → out.ret ≡ pos 0
      → out.files
        ≡ set files (find_unused 6 2 files) (fresh fs k (desc files (find_unused 6 2 files)))
      → OpenOutcome fs files fname out
  absent :
      ((k : ℕ) → 1 ≤ k → k ≤ fs.bblock.n_dir_entries → ¬ SameName fs fname k)
      → out.ret ≡ failure
      → out.files ≡ files
      → OpenOutcome fs files fname out
  not_regular :
      (k : ℕ)
      → IsFirst fs fname k
      → load fs (64 * k + 32) ≢ reg_file
      → out.ret ≡ failure
      → out.files ≡ files
      → OpenOutcome fs files fname out

found_is_opened :
    (fs : Filesys) (files : FileArray) (fname : Bytes) (k len i : ℕ) (looked : Looked)
    → looked.ret ≡ pos 0
    → Describes fs k len looked.fs.open_dentry
    → load fs (64 * k + 32) ≡ reg_file
    → file_open_found files i looked
      ≡ record { ret = pos 0; fs = looked.fs; files = set files i (fresh fs k (desc files i)) }
unfolding file_open_found
found_is_opened fs files fname k len i looked e d t =
    let ty = eq→== (filetype looked.fs.open_dentry) reg_file (d.type ∙ t) in
    let ino : inode_num looked.fs.open_dentry ≡ load fs (64 * k + 36) =
      d.inode ∙ rw (eq→== (load fs (64 * k + 32)) reg_file t) in
    rw (e, ty, ino)

found_is_refused :
    (fs : Filesys) (files : FileArray) (fname : Bytes) (k len i : ℕ) (looked : Looked)
    → looked.ret ≡ pos 0
    → Describes fs k len looked.fs.open_dentry
    → load fs (64 * k + 32) ≢ reg_file
    → file_open_found files i looked ≡ record { ret = failure; fs = looked.fs; files = files }
unfolding file_open_found
found_is_refused fs files fname k len i looked e d t =
    let ty = ne→== (filetype looked.fs.open_dentry) reg_file (λ q. t (sym d.type ∙ q)) in rw (e, ty)

file_open_found-absent :
    (files : FileArray) (i : ℕ) (looked : Looked)
    → looked.ret ≡ failure
    → file_open_found files i looked ≡ record { ret = failure; fs = looked.fs; files = files }
unfolding file_open_found
file_open_found-absent files i looked e = rw e

file_open_found-fs :
    (files : FileArray) (i : ℕ) (looked : Looked) → (file_open_found files i looked).fs ≡ looked.fs
unfolding file_open_found
file_open_found-fs files i looked = ground arith

outcome_of_lookup :
    (fs : Filesys) (files : FileArray) (fname : Bytes) (looked : Looked)
    → (((looked.ret ≡ failure)
          × (looked.fs.open_dentry ≡ fs.open_dentry)
          × ((k : ℕ) → 1 ≤ k → k ≤ fs.bblock.n_dir_entries → ¬ SameName fs fname k))
        ⊎ ((k : ℕ) × (len : ℕ) × (looked.ret ≡ pos 0)
            × (1 ≤ k)
            × (k ≤ fs.bblock.n_dir_entries)
            × SameName fs fname k
            × ((i : ℕ) → 1 ≤ i → i < k → ¬ SameName fs fname i)
            × Describes fs k len looked.fs.open_dentry))
    → OpenOutcome fs files fname (file_open_found files (find_unused 6 2 files) looked)
outcome_of_lookup fs files fname looked (inl (e, kept, none_named)) =
    rw (file_open_found-absent files (find_unused 6 2 files) looked e) (absent none_named refl refl)
outcome_of_lookup fs files fname looked (inr (k, len, e, lo, hi, named, first, d)) =
    let is_first : IsFirst fs fname k = record {
      in_directory = (lo, hi);
      named = named;
      first = first;
    } in
    elim (ℕ_discrete (load fs (64 * k + 32)) reg_file) [
      | yes t ↦
          rw (found_is_opened fs files fname k len (find_unused 6 2 files) looked e d t)
            (opened k is_first t refl refl)
      | no t ↦
          rw (found_is_refused fs files fname k len (find_unused 6 2 files) looked e d t)
            (not_regular k is_first t refl refl)
    ]

-- file_open with a descriptor free returns. It opens the first entry of the name if that is a
-- regular file, on the first free descriptor, at position 0; else it fails and opens nothing. The
-- image stays as it is.
pub file_open-OpenOutcome :
    (fs : Filesys) (files : FileArray) (fname : Bytes)
    → IsSearchable fs fname
    → find_unused 6 2 files < 8
    → (out : Opened) × (file_open fs files (some fname) ≡ some out)
      × SameImage fs out.fs
      × OpenOutcome fs files fname out
unfolding file_open
file_open-OpenOutcome fs files fname v free =
    let (looked, e, img, r) = by_name-Describes fs fname v in
    let same = file_open_found-fs files (find_unused 6 2 files) looked in
    (
      file_open_found files (find_unused 6 2 files) looked,
      rw (lt→leb 8 (find_unused 6 2 files) free, e),
      rw same img,
      outcome_of_lookup fs files fname looked r,
    )

-- A fresh descriptor is open on its file, with its index in step with position 0.
pub fresh-IsOpen :
    (fs : Filesys) (k : ℕ) (f : FileDesc)
    → load fs (64 * k + 36) < fs.bblock.n_inodes
    → IsWellFormed fs (load fs (64 * k + 36))
    → IsOpen fs (fresh fs k f)
unfolding flags_idx
fresh-IsOpen fs k f known wf = record {
  known = known;
  well_formed = wf;
  in_step = inl refl;
  flags_fit = omega arith;
  pos_fits = omega arith;
  is_regular = refl;
}

-- The state that file_close leaves where it succeeds.
abbrev pub closed : Filesys → FileArray → ℕ → Opened
closed fs files fd = record {
  ret = pos 0;
  fs = clear_names fs;
  files = set files fd (record (desc files fd) { flags = 0 });
}

file_close-closed :
    (fs : Filesys) (files : FileArray) (fd : ℕ)
    → 2 ≤ fd
    → fd < 8
    → (desc files fd).flags % 2 ^ 3 ≡ 5
    → file_close fs files (pos fd) ≡ closed fs files fd
unfolding file_close
file_close-closed fs files fd lo hi five = ground (arith, flags_type_lem (desc files fd).flags)

file_close-refused :
    (fs : Filesys) (files : FileArray) (fd : ℕ)
    → (fd < 2) ⊎ (8 ≤ fd) ⊎ ((desc files fd).flags % 2 ^ 3 ≢ 5)
    → file_close fs files (pos fd) ≡ open_failed fs files
unfolding file_close
file_close-refused fs files fd h = ground (arith, flags_type_lem (desc files fd).flags)

-- file_close frees a descriptor between 2 and 7 that is in use for a regular file, and leaves the
-- other descriptors as they are. It refuses every other descriptor, and then changes nothing.
file_close_lem :
    (fs : Filesys) (files : FileArray) (fd : ℕ)
    → length files ≡ 8
    → let out = file_close fs files (pos fd) in
      ((2 ≤ fd)
        → (fd < 8)
        → ((desc files fd).flags % 2 ^ 3 ≡ 5)
        → (out.ret ≡ pos 0)
          × ((desc out.files fd).flags ≡ 0)
          × ((i : ℕ) → i ≢ fd → desc out.files i ≡ desc files i))
      × (((fd < 2) ⊎ (8 ≤ fd) ⊎ ((desc files fd).flags % 2 ^ 3 ≢ 5)) → out ≡ open_failed fs files)
file_close_lem fs files fd eight = (
  λ lo hi five. rw (file_close-closed fs files fd lo hi five) (
    refl,
    ap (λ f. f.flags) (desc-set_self files fd (record (desc files fd) { flags = 0 }) (omega arith)),
    λ i p. desc-set_ne files fd i (record (desc files fd) { flags = 0 }) (λ q. p (sym q)),
  ),
  λ h. file_close-refused fs files fd h,
)
