-- ===== src/Filesys/Dentry/Lookup.antt =====
-- read_dentry_by_index and read_dentry_by_name of student-distrib/filesys.c: the entry that each
-- reports, and what it writes where.
use linux_based_os.Prelude.{
  ℕ, ◌+◌, ◌*◌, ◌^◌, ◌<◌, ◌≤◌, ◌≡◌, ◌≢◌, ◌⊎◌, inl, inr, refl, ◌∙◌, sym, arith, some, ltb,
  if◌then◌else◌, Bytes, byte_at, pos, failure, le→ltb, ne→==,
}
use linux_based_os.Cstring.{strncpy}
use linux_based_os.Cstring.Scan.{HasLength, strlen_lem}
use linux_based_os.Cstring.Copy.{strncpy_visible}
use linux_based_os.Filesys.{Filesys, Dentry, load, chars, filetype, inode_num}
use linux_based_os.Filesys.Dentry.{
  Dest, global_open, local, Looked, Search, missing, found, read_dentry_by_index,
  read_dentry_by_name, by_name_checked, finish_by_name, search_loop, write_dest, fill_dentry,
  dentry_of_entry,
}
use linux_based_os.Filesys.Dentry.Fill.{
  Describes, dentry_of_entry-Describes, filetype-fill_dentry, inode_num-fill_dentry,
  fill_dentry_lem, entry_inode,
}
use linux_based_os.Filesys.Dentry.ByName.{NamesEnd, SameName, Ends, search_loop-Ends}

-- read_dentry_by_index with an index inside the directory returns 0, leaves the globals alone and
-- fills a local dentry with the description of that entry, the one at offset 64 * (index + 1).
pub by_index-Describes :
    (fs : Filesys) (index len : ℕ) (d : Dentry)
    → index < fs.bblock.n_dir_entries
    → HasLength (chars fs (64 * (index + 1))) len
    → len < 2 ^ 32
    → (d' : Dentry) × (read_dentry_by_index fs index (local d)
        ≡ some (record { ret = pos 0; fs = fs; dest = local d' }))
      × Describes fs (index + 1) len d'
unfolding read_dentry_by_index
by_index-Describes fs index len d below h fits = (
  dentry_of_entry fs (index + 1) len d,
  ground (arith, strlen_lem (chars fs (64 * (index + 1))) len h fits),
  dentry_of_entry-Describes fs (index + 1) len d h,
)

-- The successful end of read_dentry_by_name for entry `k`, the first one of that name, where the
-- caller's dentry held `d` and holds `d'`.
pub record Reports (fs : Filesys) (fname : Bytes) (k len : ℕ) (d d' : Dentry) (fs' : Filesys)
    : Type 0 where
  pub in_directory : (1 ≤ k) × (k ≤ fs.bblock.n_dir_entries)
  pub named : SameName fs fname k
  pub first : (i : ℕ) → 1 ≤ i → i < k → ¬ SameName fs fname i
  pub type : filetype d' ≡ load fs (64 * k + 32)
  pub inode : inode_num d' ≡ entry_inode fs k
  pub name_kept : (j : ℕ) → j < 32 → d' j ≡ (if ltb j len then d j else 0)
  pub name_in_open_dentry : (j : ℕ) → j < len → fs'.open_dentry j ≡ byte_at (chars fs (64 * k)) j

-- The arguments that read_dentry_by_name searches with.
pub record IsSearchable (fs : Filesys) (fname : Bytes) : Type 0 where
  pub mounted : fs.filesys_ptr ≢ 0
  pub fname_len : ℕ
  pub fname_ends : HasLength fname fname_len
  pub short : fname_len ≤ 32
  pub names_end : NamesEnd fs 1 (1 + fs.bblock.n_dir_entries)

pub by_name-searches :
    (fs : Filesys) (fname : Bytes) (dest : Dest) (s : Search)
    → IsSearchable fs fname
    → search_loop fs fname fs.bblock.n_dir_entries 1 fs.filename_buf ≡ some s
    → by_name_checked fs fname dest ≡ some (finish_by_name fs dest s)
unfolding by_name_checked
by_name-searches fs fname dest s v e =
    rw (strlen_lem fname v.fname_len v.fname_ends (omega arith), le→ltb 32 v.fname_len v.short, e)

open_name :
    (fs : Filesys) (fname : Bytes) (k len : ℕ) (buf : Bytes) (hi j : ℕ) (old : Bytes)
    → Ends fs fname 1 hi (found k len buf)
    → strncpy old buf len j ≡ (if ltb j len then byte_at (chars fs (64 * k)) j else old j)
open_name fs fname k len buf hi j old h =
    ground
      (arith, strncpy_visible old buf len j (λ i p z. h.4.before i p (sym (h.5 i p) ∙ z)), h.5 j)

pub by_name_local :
    (fs : Filesys) (fname : Bytes) (d : Dentry) (hi : ℕ) (s : Search)
    → hi ≡ 1 + fs.bblock.n_dir_entries
    → Ends fs fname 1 hi s
    → let out = finish_by_name fs (local d) s in
      ((out.ret ≡ failure)
        × ((k : ℕ) → 1 ≤ k → k ≤ fs.bblock.n_dir_entries → ¬ SameName fs fname k))
      ⊎ ((k : ℕ) × (len : ℕ) × (d' : Dentry) × (out.ret ≡ pos 0)
          × (out.dest ≡ local d')
          × Reports fs fname k len d d' out.fs)
unfolding finish_by_name write_dest
by_name_local fs fname d hi (missing buf) e h = inl (refl, λ k p q. h k p (omega arith))
by_name_local fs fname d hi (found k len buf) e h = inr (
  k,
  len,
  fill_dentry fs k len d,
  refl,
  refl,
  record {
    in_directory = omega (arith, h.0, h.1);
    named = h.2;
    first = h.3;
    type = filetype-fill_dentry fs k len d;
    inode = inode_num-fill_dentry fs k len d;
    name_kept = λ j p. ground (arith, fill_dentry_lem fs k len d j);
    name_in_open_dentry = λ j p. ground (arith, open_name fs fname k len buf hi j fs.open_dentry h);
  },
)

-- read_dentry_by_name returns for every name of at most 32 characters. It fails only where no
-- entry has the name; otherwise it returns 0, and the caller's dentry has the type and the inode
-- number of the first entry of that name. The name itself is written to the global open_dentry:
-- the caller's own dentry keeps the characters that it had there.
pub by_name-Reports :
    (fs : Filesys) (fname : Bytes) (d : Dentry)
    → IsSearchable fs fname
    → (out : Looked) × (read_dentry_by_name fs (some fname) (local d) ≡ some out)
      × (((out.ret ≡ failure)
            × ((k : ℕ) → 1 ≤ k → k ≤ fs.bblock.n_dir_entries → ¬ SameName fs fname k))
          ⊎ ((k : ℕ) × (len : ℕ) × (d' : Dentry) × (out.ret ≡ pos 0)
              × (out.dest ≡ local d')
              × Reports fs fname k len d d' out.fs))
unfolding read_dentry_by_name
by_name-Reports fs fname d v =
    let (s, e, ends) =
      search_loop-Ends fs fname fs.bblock.n_dir_entries 1 fs.filename_buf v.names_end in
    (
      finish_by_name fs (local d) s,
      rw (ne→== fs.filesys_ptr 0 v.mounted) (by_name-searches fs fname (local d) s v e),
      by_name_local fs fname d _ s refl ends,
    )

-- The image and its boot block are the same in both states.
pub record SameImage (fs fs' : Filesys) : Type 0 where
  pub mem : fs'.mem ≡ fs.mem
  pub filesys_ptr : fs'.filesys_ptr ≡ fs.filesys_ptr
  pub bblock : fs'.bblock ≡ fs.bblock

finish_by_name-SameImage :
    (fs : Filesys) (s : Search) → SameImage fs (finish_by_name fs global_open s).fs
unfolding finish_by_name write_dest
finish_by_name-SameImage fs (missing buf) = record { mem = refl; filesys_ptr = refl; bblock = refl }
finish_by_name-SameImage fs (found k len buf) = record {
  mem = refl;
  filesys_ptr = refl;
  bblock = refl;
}

by_name_global :
    (fs : Filesys) (fname : Bytes) (hi : ℕ) (s : Search)
    → hi ≡ 1 + fs.bblock.n_dir_entries
    → Ends fs fname 1 hi s
    → let out = finish_by_name fs global_open s in
      ((out.ret ≡ failure)
        × (out.fs.open_dentry ≡ fs.open_dentry)
        × ((k : ℕ) → 1 ≤ k → k ≤ fs.bblock.n_dir_entries → ¬ SameName fs fname k))
      ⊎ ((k : ℕ) × (len : ℕ) × (out.ret ≡ pos 0)
          × (1 ≤ k)
          × (k ≤ fs.bblock.n_dir_entries)
          × SameName fs fname k
          × ((i : ℕ) → 1 ≤ i → i < k → ¬ SameName fs fname i)
          × Describes fs k len out.fs.open_dentry)
unfolding finish_by_name write_dest
by_name_global fs fname hi (missing buf) e h = inl (refl, refl, λ k p q. h k p (omega arith))
by_name_global fs fname hi (found k len buf) e h = inr (
  k,
  len,
  refl,
  h.0,
  omega (arith, h.1),
  h.2,
  h.3,
  record {
    name = λ j p. ground (
      arith,
      fill_dentry_lem fs k len (strncpy fs.open_dentry buf len) j,
      open_name fs fname k len buf hi j fs.open_dentry h,
    );
    type = filetype-fill_dentry fs k len _;
    inode = inode_num-fill_dentry fs k len _;
  },
)

-- Called with the global open_dentry, as the open routines do, read_dentry_by_name fails only
-- where no entry has the name, and otherwise leaves open_dentry describing the first entry of
-- that name, with its name, type and inode number. The image stays as it is.
pub by_name-Describes :
    (fs : Filesys) (fname : Bytes)
    → IsSearchable fs fname
    → (out : Looked) × (read_dentry_by_name fs (some fname) global_open ≡ some out)
      × SameImage fs out.fs
      × (((out.ret ≡ failure)
            × (out.fs.open_dentry ≡ fs.open_dentry)
            × ((k : ℕ) → 1 ≤ k → k ≤ fs.bblock.n_dir_entries → ¬ SameName fs fname k))
          ⊎ ((k : ℕ) × (len : ℕ) × (out.ret ≡ pos 0)
              × (1 ≤ k)
              × (k ≤ fs.bblock.n_dir_entries)
              × SameName fs fname k
              × ((i : ℕ) → 1 ≤ i → i < k → ¬ SameName fs fname i)
              × Describes fs k len out.fs.open_dentry))
unfolding read_dentry_by_name
by_name-Describes fs fname v =
    let (s, e, ends) =
      search_loop-Ends fs fname fs.bblock.n_dir_entries 1 fs.filename_buf v.names_end in
    (
      finish_by_name fs global_open s,
      rw (ne→== fs.filesys_ptr 0 v.mounted) (by_name-searches fs fname global_open s v e),
      finish_by_name-SameImage fs s,
      by_name_global fs fname _ s refl ends,
    )
