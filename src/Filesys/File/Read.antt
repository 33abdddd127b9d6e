-- ===== src/Filesys/File/Read.antt =====
-- file_read of student-distrib/filesys.c delivers the file in order.
use linux_based_os.Prelude.{
  ℕ, ◌+◌, ◌-◌, ◌%◌, ◌^◌, ◌<◌, ◌≡◌, ◌≢◌, ap, sym, ◌∙◌, arith, some, min, Bytes, pos, length,
  length-set, not, ◌||◌, ◌==◌, false,
}
use linux_based_os.Pcb.{FileDesc, FileArray, desc, desc-set_self, desc-set_ne}
use linux_based_os.Filesys.{Filesys, reg_file}
use linux_based_os.Filesys.Data.{DataRead, read_data, read_to_buffer}
use linux_based_os.Filesys.Data.Contents.{file_size, IsWellFormed, InStep}
use linux_based_os.Filesys.Data.Read.{Delivers, read_open-Delivers}
use linux_based_os.Filesys.Data.Step.{Stepped, read_open-Stepped}
use linux_based_os.Filesys.File.{file_read, read_at_pos, advance_pos, is_in_use, flags_type}
use linux_based_os.Filesys.File.Flags.{flags_type_lem, is_in_use_lem}

-- A descriptor open on a regular file of the image, with its index in step with its position.
pub record IsOpen (fs : Filesys) (f : FileDesc) : Type 0 where
  pub known : f.inode < fs.bblock.n_inodes
  pub well_formed : IsWellFormed fs f.inode
  pub in_step : InStep fs f.inode f.file_pos f.flags
  pub flags_fit : f.flags < 2 ^ 32
  pub pos_fits : f.file_pos < 2 ^ 31
  pub is_regular : f.flags % 2 ^ 3 ≡ 5

-- The bytes that a read of `n` bytes has to deliver from a descriptor.
abbrev pub available : Filesys → FileDesc → ℕ → ℕ
available fs f n = min n (file_size fs f.inode - f.file_pos)

-- A read leaves the descriptor open behind the bytes that it delivered.
pub record IsRead (fs : Filesys) (files : FileArray) (fd n : ℕ) (buf : Bytes) (r : DataRead)
    : Type 0 where
  pub delivers :
      Delivers fs
        (desc files fd).inode
        (desc files fd).file_pos
        (available fs (desc files fd) n)
        buf
        r
  pub still_open : IsOpen fs (desc r.files fd)
  pub same_inode : (desc r.files fd).inode ≡ (desc files fd).inode
  pub moved : (desc r.files fd).file_pos ≡ (desc files fd).file_pos + available fs (desc files fd) n
  pub others : (i : ℕ) → i ≢ fd → desc r.files i ≡ desc files i
  pub size : length r.files ≡ length files

passes_tests :
    (fs : Filesys) (f : FileDesc)
    → IsOpen fs f
    → (not (is_in_use f.flags) || not (flags_type f.flags == reg_file)) ≡ false
passes_tests fs f v = ground (arith, is_in_use_lem f.flags, flags_type_lem f.flags, v.is_regular)

file_read-eq :
    (fs : Filesys) (files : FileArray) (fd n : ℕ) (buf : Bytes)
    → IsOpen fs (desc files fd)
    → n < 2 ^ 31
    → let f = desc files fd in
      let r = read_to_buffer fs files f.inode f.file_pos buf n (pos fd) in
      file_read fs files (pos fd) (some buf) (pos n)
      ≡ record r { files = advance_pos r.files fd r.ret }
unfolding file_read read_at_pos read_data
file_read-eq fs files fd n buf v small =
    let fits : n % 2 ^ 32 ≡ n = omega arith in rw (passes_tests fs (desc files fd) v, fits)

module _ (fs : Filesys) (files : FileArray) (fd n : ℕ) (buf : Bytes) (present : fd < length files)
    (v : IsOpen fs (desc files fd)) (r : DataRead)
    (d : Delivers fs
      (desc files fd).inode
      (desc files fd).file_pos
      (available fs (desc files fd) n)
      buf
      r)
    (st : Stepped fs
      (desc files fd).inode
      ((desc files fd).file_pos + available fs (desc files fd) n)
      fd
      files
      r.files) where
  advanced : FileDesc
  advanced = record (desc r.files fd) {
    file_pos = (desc files fd).file_pos + available fs (desc files fd) n;
  }

  desc-advanced : desc (advance_pos r.files fd r.ret) fd ≡ advanced
  unfolding advance_pos advanced
  desc-advanced =
      let reach : (desc files fd).file_pos + available fs (desc files fd) n < 2 ^ 31 =
        omega (arith, v.pos_fits, v.well_formed.fits) in
      desc-set_self r.files fd _ (omega (arith, st.size))
      ∙ rw (d.ret, st.here.file_pos)
          (ap (λ p. record (desc r.files fd) { file_pos = p }) (omega arith))

  advanced-IsOpen : IsOpen fs advanced
  unfolding advanced
  advanced-IsOpen = record {
    known = rw st.here.inode v.known;
    well_formed = rw st.here.inode v.well_formed;
    in_step = rw st.here.inode st.in_step;
    flags_fit = st.here.flags_fit;
    pos_fits = omega (arith, v.pos_fits, v.well_formed.fits);
    is_regular = omega (arith, st.here.low_flags, v.is_regular);
  }

  at_pos-IsRead : IsRead fs files fd n buf (record r { files = advance_pos r.files fd r.ret })
  unfolding advanced
  at_pos-IsRead = record {
    delivers = record { ret = d.ret; bytes = d.bytes; beyond = d.beyond };
    still_open = rw desc-advanced advanced-IsOpen;
    same_inode = ap (λ f. f.inode) desc-advanced ∙ st.here.inode;
    moved = ap (λ f. f.file_pos) desc-advanced;
    others =
        λ i p. unfold advance_pos in (desc-set_ne r.files fd i _ (λ q. p (sym q)) ∙ st.others i p);
    size = unfold advance_pos in (length-set r.files fd _ ∙ st.size);
  }

-- file_read of `n` bytes from an open regular file returns the number of bytes that the file
-- still has, up to `n`, and puts exactly those bytes into the buffer. No place of the buffer
-- behind the next one changes. The position moves by that number, the descriptor stays open on
-- its file, and the other descriptors stay as they are.
pub file_read-IsRead :
    (fs : Filesys) (files : FileArray) (fd n : ℕ) (buf : Bytes)
    → fd < length files
    → IsOpen fs (desc files fd)
    → n < 2 ^ 31
    → IsRead fs files fd n buf (file_read fs files (pos fd) (some buf) (pos n))
file_read-IsRead fs files fd n buf present v small = rw (file_read-eq fs files fd n buf v small) (
    at_pos-IsRead fs files fd n buf present v _
      (read_open-Delivers fs (desc files fd).inode v.well_formed files fd n (desc files fd).file_pos
        buf v.known v.in_step small)
      (read_open-Stepped fs (desc files fd).inode v.well_formed files fd present v.flags_fit n
        (desc files fd).file_pos buf v.known v.in_step))
