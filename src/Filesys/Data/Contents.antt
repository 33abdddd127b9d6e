-- ===== src/Filesys/Data/Contents.antt =====
-- The contents of a file of the image, independently of how read_data walks it.
use linux_based_os.Prelude.{ℕ, ◌+◌, ◌-◌, ◌*◌, ◌/◌, ◌%◌, ◌<◌, ◌≤◌, ◌≡◌, ◌⊎◌}
use linux_based_os.Filesys.{Filesys, inode_word, block}
use linux_based_os.Filesys.Data.{load_byte, flags_idx}

abbrev pub file_size : Filesys → ℕ → ℕ
file_size fs inode = inode_word fs inode 0

-- The byte at position `p`: in the data block that word p / 4096 + 1 of the inode names.
unfoldable pub file_byte : Filesys → ℕ → ℕ → ℕ
file_byte fs inode p = load_byte fs (block fs (inode_word fs inode (p / 4096 + 1)) + p % 4096)

-- The blocks of a file fit its inode and are blocks of the image.
pub record IsWellFormed (fs : Filesys) (inode : ℕ) : Type 0 where
  pub fits : file_size fs inode ≤ 1023 * 4096
  pub blocks :
      (b : ℕ)
      → b * 4096 < file_size fs inode
      → inode_word fs inode (b + 1) < fs.bblock.n_data_blocks

-- The index of the inode that goes with a position: that of the byte before it.
abbrev pub idx_at : ℕ → ℕ
idx_at offset = (offset - 1) / 4096 + 1

-- The index in the flags belongs to the position, or the file has been read to its end.
abbrev pub InStep : Filesys → ℕ → ℕ → ℕ → Type 0
InStep fs inode offset flags = (flags_idx flags ≡ idx_at offset) ⊎ (file_size fs inode ≤ offset)
