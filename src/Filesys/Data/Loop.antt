-- ===== src/Filesys/Data/Loop.antt =====
-- The copying loop of read_data against the contents of the file.
use linux_based_os.Prelude.{
  ℕ, zero, suc, ◌+◌, ◌-◌, ◌/◌, ◌%◌, ◌<◌, ◌≤◌, ◌≡◌, ◌≢◌, ◌⊎◌, inl, inr, refl, ap, ◌∙◌, arith, tests,
  ==→eq, some, min, ltb, leb, ◌==◌, ◌&&◌, not, if◌then◌else◌, false, Bool-cases, Bytes, update,
}
use linux_based_os.Filesys.{Filesys, inode_word, block}
use linux_based_os.Filesys.Data.{
  Place, enter, next_block, skip_invalid, advance, Copied, copy_loop, stop_early,
}
use linux_based_os.Filesys.Data.Contents.{file_size, file_byte, IsWellFormed, idx_at}

pub skip_valid :
    (rounds : ℕ) (fs : Filesys) (inode : ℕ) (p : Place)
    → p.dnode_num < fs.bblock.n_data_blocks
    → skip_invalid rounds fs inode p ≡ some p
unfolding skip_invalid
skip_valid zero fs inode p h = refl
skip_valid (suc rounds) fs inode p h = ground arith

-- The place belongs to the offset. At a block boundary the pointer is not used.
pub record IsAt (fs : Filesys) (inode offset : ℕ) (p : Place) : Type 0 where
  pub idx : p.inode_idx ≡ idx_at offset
  pub dnode : p.dnode_num ≡ inode_word fs inode p.inode_idx
  pub ptr : (offset ≡ 0) ⊎ (offset % 4096 ≢ 0) → p.byte_ptr ≡ block fs p.dnode_num + offset % 4096

module _ (fs : Filesys) (inode : ℕ) (wf : IsWellFormed fs inode) where
  valid_block :
      (offset : ℕ)
      → offset < file_size fs inode
      → inode_word fs inode (offset / 4096 + 1) < fs.bblock.n_data_blocks
  valid_block offset h = wf.blocks (offset / 4096) (omega arith)

  -- The place of the byte at `offset`.
  abbrev byte_place : ℕ → Place
  byte_place offset = record {
    inode_idx = offset / 4096 + 1;
    dnode_num = inode_word fs inode (offset / 4096 + 1);
    byte_ptr = block fs (inode_word fs inode (offset / 4096 + 1)) + offset % 4096;
  }

  over_boundary :
      (offset : ℕ) (p : Place)
      → offset < file_size fs inode
      → IsAt fs inode offset p
      → offset ≢ 0
      → offset % 4096 ≡ 0
      → next_block fs inode p ≡ some (byte_place offset)
  unfolding next_block enter
  over_boundary offset p h v nz b =
      let e : p.inode_idx + 1 ≡ offset / 4096 + 1 = omega (arith, v.idx) in
      let below : leb 1024 (p.inode_idx + 1) ≡ false = ground (arith, v.idx, wf.fits) in
      rw (below, e) (ground arith)

  stays :
      (offset : ℕ) (p : Place)
      → IsAt fs inode offset p
      → (offset ≡ 0) ⊎ (offset % 4096 ≢ 0)
      → p ≡ byte_place offset
  stays offset p v b =
      let e : p.inode_idx ≡ offset / 4096 + 1 = omega (arith, v.idx) in
      ground (arith, v.dnode, v.ptr b)

  pub advance_lem :
      (offset : ℕ) (p : Place)
      → offset < file_size fs inode
      → IsAt fs inode offset p
      → advance fs inode offset p ≡ some (byte_place offset)
  unfolding advance
  advance_lem offset p h v = elim (Bool-cases (not (offset == 0) && (offset % 4096 == 0))) [
    | inl b ↦
        rw (b, over_boundary offset p h v (ground arith) (ground arith))
          (skip_valid 1024 fs inode (byte_place offset) (valid_block offset h))
    | inr b ↦
        rw (b, stays offset p v (ground arith))
          (skip_valid 1024 fs inode (byte_place offset) (valid_block offset h))
  ]

  -- What the loop leaves, started at place `it` of the buffer and at `offset` of the file with
  -- `left` bytes to copy: as many as there are, and a zero behind them where the file ends early.
  pub record IsCopy (left it offset : ℕ) (buf : Bytes) (c : Copied) : Type 0 where
    pub count : c.count ≡ it + min left (file_size fs inode - offset)
    pub early : c.early ≡ ltb (file_size fs inode - offset) left
    pub inside : (j : ℕ) → it ≤ j → j < c.count → c.buf j ≡ file_byte fs inode (offset + (j - it))
    pub before : (j : ℕ) → j < it → c.buf j ≡ buf j
    pub after : (j : ℕ) → c.count < j → c.buf j ≡ buf j
    pub at_end : c.buf c.count ≡ (if c.early then 0 else buf c.count)
    pub idx : c.early ≡ false → c.inode_idx ≡ idx_at (offset + left)

  at_it : {offset it : ℕ} (j : ℕ) → j ≡ it → offset ≡ offset + (j - it)
  at_it j e = omega arith

  IsCopy-suc :
      (left it offset : ℕ) (buf : Bytes) (v : ℕ) (c : Copied)
      → v ≡ file_byte fs inode offset
      → offset < file_size fs inode
      → IsCopy left (it + 1) (offset + 1) (update buf it v) c
      → IsCopy (suc left) it offset buf c
  IsCopy-suc left it offset buf v c e h r = record {
    count = omega (arith, r.count);
    early = ground (arith, r.early);
    inside = λ j p q. elim (Bool-cases (j == it)) [
      | inl here ↦
          let j_it : j ≡ it = ==→eq _ _ here in
          r.before j (omega arith) ∙ ground (arith, ap (file_byte fs inode) (at_it j j_it))
      | inr later ↦
          let past : it + 1 ≤ j = omega tests in
          r.inside j past q ∙ ap (file_byte fs inode) (omega arith)
    ];
    before = λ j p. ground (arith, r.before j);
    after = λ j p. ground (arith, r.after j, r.count);
    at_end = ground (arith, r.at_end, r.count);
    idx = λ q. ground (arith, r.idx q);
  }

  stopped :
      (left it offset : ℕ) (buf : Bytes) (idx : ℕ)
      → file_size fs inode ≤ offset
      → IsCopy (suc left) it offset buf (stop_early it idx buf)
  stopped left it offset buf idx h = record {
    count = omega arith;
    early = ground arith;
    inside = λ j p' q. absurd (omega arith);
    before = λ j p'. ground arith;
    after = λ j p'. ground arith;
    at_end = ground arith;
    idx = λ q. ground arith;
  }

  -- The place after the byte at `offset` is copied.
  abbrev stepped : ℕ → Place
  stepped offset = record (byte_place offset) { byte_ptr = (byte_place offset).byte_ptr + 1 }

  stepped-IsAt :
      (offset : ℕ) → offset < file_size fs inode → IsAt fs inode (offset + 1) (stepped offset)
  stepped-IsAt offset h = record { idx = omega arith; dnode = refl; ptr = λ b. omega arith }

  pub copy_loop-IsCopy :
      (left it offset : ℕ) (p : Place) (buf : Bytes)
      → IsAt fs inode offset p
      → IsCopy left it offset buf (copy_loop left fs inode (file_size fs inode) it offset p buf)
  unfolding copy_loop file_byte
  copy_loop-IsCopy zero it offset p buf v = record {
    count = omega arith;
    early = ground arith;
    inside = λ j p' q. absurd (omega arith);
    before = λ j p'. refl;
    after = λ j p'. refl;
    at_end = refl;
    idx = λ q. ground (arith, v.idx);
  }
  copy_loop-IsCopy (suc left) it offset p buf v =
      elim (Bool-cases (leb (file_size fs inode) offset)) [
        | inl ended ↦ rw ended (stopped left it offset buf p.inode_idx (ground arith))
        | inr more ↦
            let h : offset < file_size fs inode = ground arith in
            rw (more, advance_lem offset p h v)
              (IsCopy-suc left it offset buf _ _ refl h (
                copy_loop-IsCopy left (it + 1) (offset + 1) (stepped offset) _
                  (stepped-IsAt offset h)))
      ]
