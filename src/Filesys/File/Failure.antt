-- ===== src/Filesys/File/Failure.antt =====
-- file_read of student-distrib/filesys.c where read_data fails.
use linux_based_os.Prelude.{
  ℕ, ◌+◌, ◌-◌, ◌%◌, ◌^◌, ◌<◌, ◌≤◌, ◌≡◌, ap, arith, some, Bytes, pos, ℤ, failure, length, not, ◌||◌,
  ◌==◌, false, le→leb, refl,
}
use linux_based_os.Pcb.{FileArray, desc, desc-set_self}
use linux_based_os.Filesys.{Filesys, reg_file}
use linux_based_os.Filesys.Data.{read_data, read_to_buffer, data_failed}
use linux_based_os.Filesys.File.{file_read, read_at_pos, advance_pos, is_in_use, flags_type}
use linux_based_os.Filesys.File.Flags.{flags_type_lem, is_in_use_lem}

file_read-bad_inode :
    (fs : Filesys) (files : FileArray) (fd : ℕ) (buf : Bytes) (nbytes : ℤ)
    → (desc files fd).flags % 2 ^ 3 ≡ 5
    → fs.bblock.n_inodes ≤ (desc files fd).inode
    → file_read fs files (pos fd) (some buf) nbytes
      ≡ data_failed failure buf (advance_pos files fd failure)
unfolding file_read read_at_pos read_data read_to_buffer
file_read-bad_inode fs files fd buf nbytes regular unknown =
    let t : (not (is_in_use (desc files fd).flags)
          || not (flags_type (desc files fd).flags == reg_file))
        ≡ false =
      ground (arith, is_in_use_lem (desc files fd).flags, flags_type_lem (desc files fd).flags) in
    rw (t, le→leb fs.bblock.n_inodes (desc files fd).inode unknown)

-- Where the inode number of a descriptor is none of the image, file_read fails, and adds the -1
-- of read_data to the position: it moves back by one, on 32 bits.
pub file_read_moves_back :
    (fs : Filesys) (files : FileArray) (fd : ℕ) (buf : Bytes) (nbytes : ℤ)
    → fd < length files
    → (desc files fd).flags % 2 ^ 3 ≡ 5
    → fs.bblock.n_inodes ≤ (desc files fd).inode
    → let r = file_read fs files (pos fd) (some buf) nbytes in
      (r.ret ≡ failure)
      × ((desc r.files fd).file_pos ≡ ((desc files fd).file_pos + (2 ^ 32 - 1)) % 2 ^ 32)
unfolding advance_pos
file_read_moves_back fs files fd buf nbytes present regular unknown =
    rw (file_read-bad_inode fs files fd buf nbytes regular unknown)
      (refl, ap (λ f. f.file_pos) (desc-set_self files fd _ present))
