-- ===== src/Syscalls/Lookup.antt =====
-- The lookup and the open routine that sys_open_c of student-distrib/sys_calls.c calls.
use linux_based_os.Prelude.{
  ℕ, ◌+◌, ◌*◌, ◌<◌, ◌≡◌, inl, inr, refl, ap, ◌∙◌, Bytes, pos, some, set, ne→==,
}
use linux_based_os.Pcb.{FileArray, desc, find_unused}
use linux_based_os.Filesys.{Filesys, Dentry, load, chars, filetype, inode_num, reg_file}
use linux_based_os.Filesys.Dentry.{Looked, local, read_dentry_by_name, finish_by_name}
use linux_based_os.Filesys.Dentry.Fill.{entry_inode}
use linux_based_os.Filesys.Dentry.ByName.{search_loop-Ends}
use linux_based_os.Filesys.Dentry.Lookup.{IsSearchable, SameImage, by_name-searches, by_name_local}
use linux_based_os.Filesys.File.{Opened, file_open}
use linux_based_os.Filesys.File.Open.{
  IsFirst, fresh, OpenOutcome, opened, absent, not_regular, file_open-OpenOutcome,
}
use linux_based_os.Syscalls.{dentry_of}
use linux_based_os.Syscalls.Image.{buffers, IsSearchable-buffers, local_image, IsFirst-unique}

pub lookup_local :
    (fs : Filesys) (fname : Bytes) (d : Dentry) (entry : ℕ)
    → IsSearchable fs fname
    → IsFirst fs fname entry
    → (looked : Looked) × (read_dentry_by_name fs (some fname) (local d) ≡ some looked)
      × SameImage fs looked.fs
      × (looked.ret ≡ pos 0)
      × (filetype (dentry_of looked.dest d) ≡ load fs (64 * entry + 32))
      × (inode_num (dentry_of looked.dest d) ≡ entry_inode fs entry)
unfolding read_dentry_by_name
lookup_local fs fname d entry v w =
    let (s, e, ends) =
      search_loop-Ends fs fname fs.bblock.n_dir_entries 1 fs.filename_buf v.names_end in
    elim (by_name_local fs fname d _ s refl ends) [
      | inl (r, none_named) ↦ absurd (none_named entry w.in_directory.0 w.in_directory.1 w.named)
      | inr (k, len, d', r, dest, rep) ↦
          let same : k ≡ entry =
            IsFirst-unique fs fname k entry
              (record { in_directory = rep.in_directory; named = rep.named; first = rep.first })
              w in
          (
            finish_by_name fs (local d) s,
            rw (ne→== fs.filesys_ptr 0 v.mounted) (by_name-searches fs fname (local d) s v e),
            local_image fs d s,
            r,
            ap (λ t. filetype (dentry_of t d)) dest
                ∙ rep.type
                ∙ ap (λ q. load fs (64 * q + 32)) same,
            ap (λ t. inode_num (dentry_of t d)) dest ∙ rep.inode ∙ ap (entry_inode fs) same,
          )
    ]

module _ (fs : Filesys) (a b : Dentry) (c fname : Bytes) (files : FileArray) (entry : ℕ) where
  buffers-opened :
      (out : Opened)
      → IsFirst fs fname entry
      → load fs (64 * entry + 32) ≡ reg_file
      → OpenOutcome (buffers fs a b c) files fname out
      → out.files
        ≡ set files (find_unused 6 2 files) (fresh fs entry (desc files (find_unused 6 2 files)))
  unfolding load chars
  buffers-opened out w t (opened k first type ret eq) =
      eq
      ∙ ap
          (λ q. set files (find_unused 6 2 files) (fresh fs q (desc files (find_unused 6 2 files))))
          (IsFirst-unique fs fname k entry
            (record { in_directory = first.in_directory; named = first.named; first = first.first })
            w)
  buffers-opened out w t (absent none_named ret eq) =
      absurd (none_named entry w.in_directory.0 w.in_directory.1 w.named)
  buffers-opened out w t (not_regular k first type ret eq) = absurd (
      type (
        ap (λ q. load fs (64 * q + 32))
          (IsFirst-unique fs fname k entry
            (record { in_directory = first.in_directory; named = first.named; first = first.first })
            w)
        ∙ t))

  pub open_buffers :
      IsSearchable fs fname
      → IsFirst fs fname entry
      → load fs (64 * entry + 32) ≡ reg_file
      → find_unused 6 2 files < 8
      → (out : Opened) × (file_open (buffers fs a b c) files (some fname) ≡ some out)
        × SameImage fs out.fs
        × (out.files
            ≡ set files
                (find_unused 6 2 files)
                (fresh fs entry (desc files (find_unused 6 2 files))))
  open_buffers v w t free =
      let (out, e, img, outcome) =
        file_open-OpenOutcome (buffers fs a b c) files fname (IsSearchable-buffers fs a b c fname v)
          free in
      (
        out,
        e,
        record { mem = img.mem; filesys_ptr = img.filesys_ptr; bblock = img.bblock },
        buffers-opened out w t outcome,
      )
