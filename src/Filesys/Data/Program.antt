-- ===== src/Filesys/Data/Program.antt =====
-- read_data of student-distrib/filesys.c in the calls of sys_execute, where `fd` is -1.
use linux_based_os.Prelude.{
  ℕ, zero, suc, ◌+◌, ◌-◌, ◌^◌, ◌<◌, ◌≤◌, ◌≡◌, Bool-cases, Option-cases, inl, inr, refl, ap, ◌∙◌,
  arith, some, min, leb, update_ne, update_self, Bytes, ℤ, pos, failure, le→leb, lt→leb,
}
use linux_based_os.Pcb.{FileArray}
use linux_based_os.Filesys.{Filesys, inode_word, block}
use linux_based_os.Filesys.Data.{
  read_to_buffer, read_data, finish_read, start_idx, start_place, Copied, Place, enter, next_block,
  skip_invalid, advance, copy_loop, load_byte,
}
use linux_based_os.Filesys.Data.Contents.{file_size, IsWellFormed}
use linux_based_os.Filesys.Data.Loop.{copy_loop-IsCopy, skip_valid}
use linux_based_os.Filesys.Data.Read.{Delivers, known_inode, start_place-IsAt, IsCopy-Delivers}

skip_once :
    (rounds : ℕ) (fs : Filesys) (inode : ℕ) (p q : Place)
    → fs.bblock.n_data_blocks ≤ p.dnode_num
    → next_block fs inode p ≡ some q
    → q.dnode_num < fs.bblock.n_data_blocks
    → skip_invalid (suc rounds) fs inode p ≡ some q
unfolding skip_invalid
skip_once rounds fs inode p q h e v =
    rw (le→leb fs.bblock.n_data_blocks p.dnode_num h, e) (skip_valid rounds fs inode q v)

module _ (fs : Filesys) (inode : ℕ) (wf : IsWellFormed fs inode)
    (more : 0 < file_size fs inode) where
  first_block : inode_word fs inode 1 < fs.bblock.n_data_blocks
  first_block = wf.blocks 0 more

  -- Index 0 of the inode is the length, which is skipped where it is no block number.
  advance_from_0 :
      fs.bblock.n_data_blocks ≤ file_size fs inode
      → advance fs inode 0 (start_place fs inode 0 0) ≡ some (enter fs inode 1)
  unfolding advance next_block enter start_place
  advance_from_0 h = skip_once 1023 fs inode _ (enter fs inode 1) h refl first_block

  advance_from_1 : advance fs inode 0 (start_place fs inode 1 0) ≡ some (start_place fs inode 1 0)
  unfolding advance start_place
  advance_from_1 = skip_valid 1024 fs inode _ first_block

  same_start : enter fs inode 1 ≡ start_place fs inode 1 0
  unfolding enter start_place
  same_start =
      ap (λ b. record { inode_idx = 1; dnode_num = inode_word fs inode 1; byte_ptr = b })
        (omega arith)

  copy_from_0 :
      (left : ℕ) (buf : Bytes)
      → fs.bblock.n_data_blocks ≤ file_size fs inode
      → copy_loop (suc left) fs inode (file_size fs inode) 0 0 (start_place fs inode 0 0) buf
        ≡ copy_loop (suc left) fs inode (file_size fs inode) 0 0 (start_place fs inode 1 0) buf
  unfolding copy_loop
  copy_from_0 left buf h =
      rw (lt→leb (file_size fs inode) 0 more, advance_from_0 h ∙ ap some same_start, advance_from_1)

  from_0-Delivers :
      (files : FileArray) (left : ℕ) (buf : Bytes)
      → inode < fs.bblock.n_inodes
      → fs.bblock.n_data_blocks ≤ file_size fs inode
      → suc left < 2 ^ 31
      → Delivers fs inode 0
          (min (suc left) (file_size fs inode - 0))
          buf
          (read_to_buffer fs files inode 0 buf (suc left) failure)
  unfolding read_to_buffer start_idx
  from_0-Delivers files left buf known big small =
      rw
        (
          known_inode fs inode wf known,
          lt→leb (file_size fs inode) 0 more,
          copy_from_0 left buf big,
        )
        (IsCopy-Delivers fs inode wf files failure (suc left) 0 buf _ small (
          copy_loop-IsCopy fs inode wf (suc left) 0 0 (start_place fs inode 1 0) buf
            (start_place-IsAt fs inode wf 0 1 refl)))

-- Without a descriptor read_data starts at index 0 of the inode, which is the length of the file.
-- Where the length is no valid block number it is skipped, and a read from position 0 delivers
-- the bytes of the file in order, as many as asked for or as the file has.
pub program_read-Delivers :
    (fs : Filesys) (inode : ℕ) (files : FileArray) (len : ℕ) (buf : Bytes)
    → IsWellFormed fs inode
    → inode < fs.bblock.n_inodes
    → 0 < file_size fs inode
    → fs.bblock.n_data_blocks ≤ file_size fs inode
    → 0 < len
    → len < 2 ^ 31
    → Delivers fs inode 0
        (min len (file_size fs inode))
        buf
        (read_data fs files inode 0 (some buf) len failure)
unfolding read_data
program_read-Delivers fs inode files zero buf wf known more big nz small = absurd (omega arith)
program_read-Delivers fs inode files (suc left) buf wf known more big nz small =
    let d = from_0-Delivers fs inode wf more files left buf known big small in
    let e : min (suc left) (file_size fs inode - 0) ≡ min (suc left) (file_size fs inode) =
      omega arith in
    record {
      ret = d.ret ∙ ap pos e;
      bytes = λ j p. d.bytes j (omega (arith, e, p));
      beyond = λ j p. d.beyond j (omega (arith, e, p));
    }

copy_loop-before :
    (left : ℕ) (fs : Filesys) (inode size it offset : ℕ) (p : Place) (buf : Bytes) (j : ℕ)
    → j < it
    → (copy_loop left fs inode size it offset p buf).buf j ≡ buf j
unfolding copy_loop
copy_loop-before zero fs inode size it offset p buf j h = refl
copy_loop-before (suc left) fs inode size it offset p buf j h =
    elim (Bool-cases (leb size offset)) [
      | inl ended ↦ rw ended (update_ne buf it 0 j (omega arith))
      | inr more ↦ elim (Option-cases (advance fs inode offset p)) [
        | inl e ↦ rw (more, e) (update_ne buf it 0 j (omega arith))
        | inr (q, e) ↦
            rw (more, e)
              (copy_loop-before left fs inode size (it + 1) (offset + 1) _ _ j (omega arith)
                ∙ update_ne buf it (load_byte fs q.byte_ptr) j (omega arith))
      ]
    ]

finish_read-buf :
    (files : FileArray) (fd : ℤ) (length : ℕ) (c : Copied)
    → (finish_read files fd length c).buf ≡ c.buf
unfolding finish_read
finish_read-buf files fd length c = ground arith

copy_loop-first :
    (left : ℕ) (fs : Filesys) (inode size : ℕ) (p : Place) (buf : Bytes)
    → 0 < size
    → p.dnode_num < fs.bblock.n_data_blocks
    → (copy_loop (suc left) fs inode size 0 0 p buf).buf 0 ≡ load_byte fs p.byte_ptr
unfolding copy_loop advance
copy_loop-first left fs inode size p buf more valid =
    rw (lt→leb size 0 more, skip_valid 1024 fs inode p valid)
      (copy_loop-before left fs inode size 1 1 _ _ 0 (omega arith)
        ∙ update_self buf 0 (load_byte fs p.byte_ptr))

-- Where the length of a file is a valid block number, read_data without a descriptor starts in
-- the block of that number: the first byte that it delivers is the first one of that block.
pub program_read-misplaced :
    (fs : Filesys) (inode : ℕ) (files : FileArray) (len : ℕ) (buf : Bytes)
    → inode < fs.bblock.n_inodes
    → 0 < file_size fs inode
    → file_size fs inode < fs.bblock.n_data_blocks
    → 0 < len
    → (read_data fs files inode 0 (some buf) len failure).buf 0
      ≡ load_byte fs (block fs (file_size fs inode))
unfolding read_data read_to_buffer start_idx start_place
program_read-misplaced fs inode files zero buf known more valid nz = absurd (omega arith)
program_read-misplaced fs inode files (suc left) buf known more valid nz =
    let e1 = lt→leb fs.bblock.n_inodes inode known in
    let e2 = lt→leb (file_size fs inode) 0 more in
    rw (e1, e2)
      (ap (λ b. b 0) (finish_read-buf files failure (suc left) _)
        ∙ copy_loop-first left fs inode _ (start_place fs inode 0 0) buf more valid
        ∙ ap (load_byte fs) (omega arith))
