-- ===== src/Syscalls/Open.antt =====
-- sys_open_c of student-distrib/sys_calls.c on a regular file.
use linux_based_os.Prelude.{
  ℕ, ◌+◌, ◌*◌, ◌<◌, ◌≡◌, refl, ap, sym, ◌∙◌, arith, false, Bytes, pos, some, length, length-set,
  set, lt→leb, is_minus_one,
}
use native.Mathlib.Decide.{ℕ_discrete}
use linux_based_os.Pcb.{
  FileArray, FileDesc, desc, desc-set_self, desc-set_ne, find_unused, file_table,
}
use linux_based_os.Filesys.{Dentry, load, reg_file}
use linux_based_os.Filesys.Dentry.Lookup.{IsSearchable, SameImage}
use linux_based_os.Filesys.Data.Contents.{IsWellFormed}
use linux_based_os.Filesys.File.{file_open}
use linux_based_os.Filesys.File.Open.{IsFirst, fresh}
use linux_based_os.Syscalls.{Kernel, Events, sys_open, open_found, open_ptr, table_of}
use linux_based_os.Syscalls.Image.{buffers, SameImage-buffers, find_unused-flags}
use linux_based_os.Syscalls.Lookup.{lookup_local, open_buffers}

-- A name that leads to a regular file of the image, and a process with a descriptor free.
pub record IsFileNamed (k : Kernel) (fname : Bytes) (entry : ℕ) : Type 0 where
  pub searchable : IsSearchable k.fs fname
  pub first : IsFirst k.fs fname entry
  pub regular : load k.fs (64 * entry + 32) ≡ reg_file
  pub known : load k.fs (64 * entry + 36) < k.fs.bblock.n_inodes
  pub well_formed : IsWellFormed k.fs (load k.fs (64 * entry + 36))
  pub free : find_unused 6 2 k.files < 8
  pub size : length k.files ≡ 8

-- The file array once the table is chosen.
abbrev tabled : FileArray → FileArray
tabled files =
    set files (find_unused 6 2 files)
      (record (desc files (find_unused 6 2 files)) { file_op_ptr = file_table })

module _ (k : Kernel) (fname : Bytes) (entry : ℕ) (v : IsFileNamed k fname entry) where
  abbrev pub slot : ℕ
  slot = find_unused 6 2 k.files

  tabled-slot : desc (tabled k.files) slot ≡ record (desc k.files slot) { file_op_ptr = file_table }
  tabled-slot = desc-set_self k.files slot _ (omega (arith, v.free, v.size))

  same_flags : (j : ℕ) → (desc (tabled k.files) j).flags ≡ (desc k.files j).flags
  same_flags j = elim (ℕ_discrete slot j) [
    | yes e ↦
        ap (λ i. (desc (tabled k.files) i).flags) (sym e)
        ∙ ap (λ f. f.flags) tabled-slot
        ∙ ap (λ i. (desc k.files i).flags) e
    | no n ↦ ap (λ f. f.flags) (desc-set_ne k.files slot j _ n)
  ]

  same_slot : find_unused 6 2 (tabled k.files) ≡ slot
  same_slot = find_unused-flags 6 2 (tabled k.files) k.files same_flags

  -- What a successful sys_open leaves.
  pub record IsOpened (k' : Kernel) : Type 0 where
    pub image : SameImage k.fs k'.fs
    pub keyboard : k'.keyboard ≡ k.keyboard
    pub files : k'.files ≡ set (tabled k.files) slot (fresh k.fs entry (desc (tabled k.files) slot))

  to_file_table : (type : ℕ) → type ≡ load k.fs (64 * entry + 32) → table_of type ≡ file_table
  unfolding table_of
  to_file_table type e = rw (e ∙ v.regular) refl

  pub sys_open-IsOpened :
      (ev : Events) (junk : Dentry)
      → (k' : Kernel) × (sys_open k ev junk (some fname) ≡ some (pos slot, k')) × IsOpened k'
  unfolding sys_open open_found open_ptr
  sys_open-IsOpened ev junk =
      let (looked, e, img, r, ty, _) = lookup_local k.fs fname junk entry v.searchable v.first in
      let (out, eo, imgo, eq) =
        open_buffers k.fs looked.fs.open_dentry looked.fs.read_dentry looked.fs.filename_buf fname
          (tabled k.files) entry v.searchable v.first v.regular (rw same_slot v.free) in
      let opens : file_open looked.fs (tabled k.files) (some fname) ≡ some out =
        ap (λ f. file_open f (tabled k.files) (some fname)) (SameImage-buffers k.fs looked.fs img)
        ∙ eo in
      let minus : is_minus_one looked.ret ≡ false = ap is_minus_one r in
      (
        record k { fs = out.fs; files = out.files },
        rw (e, minus, lt→leb 8 slot v.free, to_file_table _ ty, opens) refl,
        record {
          image = imgo;
          keyboard = refl;
          files =
              eq
              ∙ ap (λ i. set (tabled k.files) i (fresh k.fs entry (desc (tabled k.files) i)))
                  same_slot;
        },
      )

  abbrev pub new_desc : FileDesc
  new_desc = record {
    file_op_ptr = file_table;
    inode = load k.fs (64 * entry + 36);
    file_pos = 0;
    flags = 0x105;
  }

  module _ (k' : Kernel) (o : IsOpened k') where
    pub desc-new : desc k'.files slot ≡ new_desc
    desc-new =
        ap (λ fs. desc fs slot) o.files
        ∙ desc-set_self (tabled k.files) slot _ (
            omega (
              arith,
              v.free,
              v.size,
              length-set k.files slot (record (desc k.files slot) { file_op_ptr = file_table }),
            ))
        ∙ ap (λ f. fresh k.fs entry f) tabled-slot

    pub new_size : length k'.files ≡ 8
    new_size =
        ap length o.files ∙ length-set (tabled k.files) slot _ ∙ length-set k.files slot _ ∙ v.size

    pub image_of : k'.fs ≡ buffers k.fs k'.fs.open_dentry k'.fs.read_dentry k'.fs.filename_buf
    image_of = SameImage-buffers k.fs k'.fs o.image
