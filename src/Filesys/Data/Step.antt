-- ===== src/Filesys/Data/Step.antt =====
-- What read_data of student-distrib/filesys.c does to the file array.
use linux_based_os.Prelude.{
  ℕ, ◌+◌, ◌-◌, ◌%◌, ◌^◌, ◌<◌, ◌≤◌, ◌≡◌, ◌≢◌, inl, inr, refl, ap, sym, arith, min, leb, false,
  Bool-cases, Bytes, pos, length, length-set, set,
}
use linux_based_os.Pcb.{FileDesc, FileArray, desc, desc-set_self, desc-set_ne}
use linux_based_os.Filesys.{Filesys}
use linux_based_os.Filesys.Data.{
  read_to_buffer, finish_read, save_idx, start_idx, flags_idx, set_flags_idx, Copied,
}
use linux_based_os.Filesys.Data.Flags.{flags_idx_lem, set_flags_idx_lem}
use linux_based_os.Filesys.Data.Contents.{file_size, IsWellFormed, InStep, idx_at}
use linux_based_os.Filesys.Data.Loop.{IsCopy, copy_loop-IsCopy}
use linux_based_os.Filesys.Data.Read.{start_place-IsAt, known_inode}

-- Two states of a descriptor that differ in the saved index at most.
pub record SameButIdx (f f' : FileDesc) : Type 0 where
  pub ops : f'.file_op_ptr ≡ f.file_op_ptr
  pub inode : f'.inode ≡ f.inode
  pub file_pos : f'.file_pos ≡ f.file_pos
  pub low_flags : f'.flags % 2 ^ 8 ≡ f.flags % 2 ^ 8
  pub flags_fit : f'.flags < 2 ^ 32

-- The array differs in one descriptor at most, and there in the index.
pub record Stepped (fs : Filesys) (inode offset : ℕ) (fd : ℕ) (files files' : FileArray)
    : Type 0 where
  pub here : SameButIdx (desc files fd) (desc files' fd)
  pub in_step : InStep fs inode offset (desc files' fd).flags
  pub others : (i : ℕ) → i ≢ fd → desc files' i ≡ desc files i
  pub size : length files' ≡ length files

module _ (fs : Filesys) (inode : ℕ) (wf : IsWellFormed fs inode) (files : FileArray) (fd : ℕ)
    (present : fd < length files) (fit : (desc files fd).flags < 2 ^ 32) where
  unchanged : (offset : ℕ) → file_size fs inode ≤ offset → Stepped fs inode offset fd files files
  unchanged offset h = record {
    here = record { ops = refl; inode = refl; file_pos = refl; low_flags = refl; flags_fit = fit };
    in_step = inr h;
    others = λ i p. refl;
    size = refl;
  }

  save_idx-Stepped :
      (offset idx : ℕ)
      → idx ≡ idx_at offset
      → idx < 2 ^ 12
      → Stepped fs inode offset fd files (save_idx files (pos fd) idx)
  unfolding save_idx
  save_idx-Stepped offset idx e small =
      let flags = (desc files fd).flags in
      let saved = record (desc files fd) { flags = set_flags_idx flags idx } in
      let lem = set_flags_idx_lem flags idx fit small in
      let back : desc (set files fd saved) fd ≡ saved = desc-set_self files fd saved present in
      record {
        here = record {
          ops = ap (λ f. f.file_op_ptr) back;
          inode = ap (λ f. f.inode) back;
          file_pos = ap (λ f. f.file_pos) back;
          low_flags = omega (arith, ap (λ f. f.flags) back, lem);
          flags_fit = omega (arith, ap (λ f. f.flags) back, lem);
        };
        in_step = inl (
            omega (
              arith,
              flags_idx_lem (desc (set files fd saved) fd).flags,
              ap (λ f. f.flags) back,
              lem,
            ));
        others = λ i p. desc-set_ne files fd i saved (λ q. p (sym q));
        size = length-set files fd saved;
      }

  -- After a copy of `len` bytes the descriptor goes with the position after the bytes delivered.
  IsCopy-Stepped :
      (len offset : ℕ) (buf : Bytes) (c : Copied)
      → offset < file_size fs inode
      → IsCopy fs inode wf len 0 offset buf c
      → Stepped fs inode
          (offset + min len (file_size fs inode - offset))
          fd
          files
          (finish_read files (pos fd) len c).files
  unfolding finish_read
  IsCopy-Stepped len offset buf c h r = elim (Bool-cases c.early) [
    | inl early ↦ rw early (unchanged _ (ground (arith, r.early)))
    | inr whole ↦
        let all : min len (file_size fs inode - offset) ≡ len = ground (arith, r.early) in
        rw (whole, all)
          (save_idx-Stepped (offset + len) c.inode_idx (r.idx whole)
            (omega (arith, r.idx whole, wf.fits)))
  ]

  pub read_open-Stepped :
      (len offset : ℕ) (buf : Bytes)
      → inode < fs.bblock.n_inodes
      → InStep fs inode offset (desc files fd).flags
      → Stepped fs inode
          (offset + min len (file_size fs inode - offset))
          fd
          files
          (read_to_buffer fs files inode offset buf len (pos fd)).files
  unfolding read_to_buffer start_idx
  read_open-Stepped len offset buf known step =
      elim (Bool-cases (leb (file_size fs inode) offset)) [
        | inl over ↦ rw (known_inode fs inode wf known, over) (unchanged _ (ground arith))
        | inr more ↦
            let h : offset < file_size fs inode = ground arith in
            let e : flags_idx (desc files fd).flags ≡ idx_at offset = ground arith in
            let room : leb 1024 (flags_idx (desc files fd).flags) ≡ false =
              ground (arith, wf.fits) in
            rw (known_inode fs inode wf known, more, room)
              (IsCopy-Stepped len offset buf _ h (
                copy_loop-IsCopy fs inode wf len 0 offset _ buf
                  (start_place-IsAt fs inode wf offset _ e)))
      ]
