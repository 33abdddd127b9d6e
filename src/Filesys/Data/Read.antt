-- ===== src/Filesys/Data/Read.antt =====
-- read_data of student-distrib/filesys.c: what it delivers for an open file, and for a whole
-- program.
use linux_based_os.Prelude.{
  ℕ, ◌+◌, ◌-◌, ◌^◌, ◌<◌, ◌≤◌, ◌≡◌, inl, inr, refl, ap, arith, min, leb, false, Bool-cases, Bytes, ℤ,
  pos,
}
use linux_based_os.Pcb.{FileArray, desc}
use linux_based_os.Filesys.{Filesys}
use linux_based_os.Filesys.Data.{
  DataRead, read_to_buffer, finish_read, start_idx, start_place, flags_idx, Copied, data_failed,
}
use linux_based_os.Filesys.Data.Contents.{file_size, file_byte, IsWellFormed, InStep, idx_at}
use linux_based_os.Filesys.Data.Loop.{IsAt, IsCopy, copy_loop-IsCopy}

-- The first `n` bytes of the buffer are those of the file from `offset` on, and no place behind
-- the next one has changed.
pub record Delivers (fs : Filesys) (inode offset n : ℕ) (buf : Bytes) (r : DataRead) : Type 0 where
  pub ret : r.ret ≡ pos n
  pub bytes : (j : ℕ) → j < n → r.buf j ≡ file_byte fs inode (offset + j)
  pub beyond : (j : ℕ) → n < j → r.buf j ≡ buf j

plus_back : (offset j : ℕ) → offset + (j - 0) ≡ offset + j
plus_back offset j = omega arith

module _ (fs : Filesys) (inode : ℕ) (wf : IsWellFormed fs inode) where
  pub known_inode : inode < fs.bblock.n_inodes → leb fs.bblock.n_inodes inode ≡ false
  known_inode h = ground arith

  pub start_place-IsAt :
      (offset idx : ℕ)
      → idx ≡ idx_at offset
      → IsAt fs inode offset (start_place fs inode idx offset)
  unfolding start_place
  start_place-IsAt offset idx e = record { idx = e; dnode = refl; ptr = λ b. refl }

  pub IsCopy-Delivers :
      (files : FileArray) (fd : ℤ) (len offset : ℕ) (buf : Bytes) (c : Copied)
      → len < 2 ^ 31
      → IsCopy fs inode wf len 0 offset buf c
      → Delivers fs inode offset
          (min len (file_size fs inode - offset))
          buf
          (finish_read files fd len c)
  unfolding finish_read
  IsCopy-Delivers files fd len offset buf c small r = record {
    ret = ground (arith, r.early, r.count);
    bytes =
        λ j p. ground (arith, r.count, r.inside j, ap (file_byte fs inode) (plus_back offset j));
    beyond = λ j p. ground (arith, r.count, r.after j);
  }

  -- Past the end nothing is read.
  pub ended-Delivers :
      (files : FileArray) (len offset : ℕ) (buf : Bytes)
      → file_size fs inode ≤ offset
      → Delivers fs inode offset
          (min len (file_size fs inode - offset))
          buf
          (data_failed (pos 0) buf files)
  ended-Delivers files len offset buf h = record {
    ret = ap pos (omega arith);
    bytes = λ j p. absurd (omega arith);
    beyond = λ j p. refl;
  }

  pub read_open-Delivers :
      (files : FileArray) (fd len offset : ℕ) (buf : Bytes)
      → inode < fs.bblock.n_inodes
      → InStep fs inode offset (desc files fd).flags
      → len < 2 ^ 31
      → Delivers fs inode offset
          (min len (file_size fs inode - offset))
          buf
          (read_to_buffer fs files inode offset buf len (pos fd))
  unfolding read_to_buffer start_idx
  read_open-Delivers files fd len offset buf known step small =
      elim (Bool-cases (leb (file_size fs inode) offset)) [
        | inl over ↦
            rw (known_inode known, over) (ended-Delivers files len offset buf (ground arith))
        | inr more ↦
            let h : offset < file_size fs inode = ground arith in
            let e : flags_idx (desc files fd).flags ≡ idx_at offset = ground arith in
            let room : leb 1024 (flags_idx (desc files fd).flags) ≡ false =
              ground (arith, wf.fits) in
            rw (known_inode known, more, room)
              (IsCopy-Delivers files (pos fd) len offset buf _ small
                (copy_loop-IsCopy fs inode wf len 0 offset _ buf (start_place-IsAt offset _ e)))
      ]
