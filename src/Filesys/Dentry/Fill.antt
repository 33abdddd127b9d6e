-- ===== src/Filesys/Dentry/Fill.antt =====
-- What the lookups of student-distrib/filesys.c write to a dentry, byte by byte.
use linux_based_os.Prelude.{
  ℕ, ◌+◌, ◌-◌, ◌*◌, ◌^◌, ◌<◌, ◌≤◌, ◌≡◌, arith, ltb, ◌==◌, if◌then◌else◌, Bytes, byte_at, ◌⊎◌, ◌∙◌,
  inl, inr, Bool-cases, set_word, word, word-set_word_self, word-lt,
}
use linux_based_os.Cstring.{zero_fill, strncpy}
use linux_based_os.Cstring.Scan.{HasLength}
use linux_based_os.Cstring.Copy.{zero_fill_lem, strncpy_all}
use linux_based_os.Filesys.{Filesys, Dentry, load, chars, reg_file, filetype, inode_num}
use linux_based_os.Filesys.Dentry.{fill_dentry, dentry_of_entry}

pub load-lt : (fs : Filesys) (offset : ℕ) → load fs offset < 2 ^ 32
unfolding load
load-lt fs offset = word-lt _ _

set_word_outside : (m : Bytes) (i v j : ℕ) → (j < i) ⊎ (i + 4 ≤ j) → set_word m i v j ≡ m j
unfolding set_word
set_word_outside m i v j h = ground arith

word_of_set_word :
    (m : Bytes) (i v k : ℕ) → (k + 4 ≤ i) ⊎ (i + 4 ≤ k) → word (set_word m i v) k ≡ word m k
unfolding word
word_of_set_word m i v k h = ground (
  arith,
  set_word_outside m i v k,
  set_word_outside m i v (k + 1),
  set_word_outside m i v (k + 2),
  set_word_outside m i v (k + 3),
)

-- The inode number that a lookup reports for an entry.
abbrev pub entry_inode : Filesys → ℕ → ℕ
entry_inode fs k = if load fs (64 * k + 32) == reg_file then load fs (64 * k + 36) else 0

module _ (p : Bytes) (t x : ℕ) where
  typed : Bytes
  typed = set_word (set_word p 32 t) 36 x

  filetype-typed : t < 2 ^ 32 → filetype typed ≡ t
  unfolding typed
  filetype-typed h =
      word_of_set_word (set_word p 32 t) 36 x 32 (inl (omega arith)) ∙ word-set_word_self p 32 t h

  typed_outside : (j : ℕ) → (j < 32) ⊎ (40 ≤ j) → typed j ≡ p j
  unfolding typed
  typed_outside j h =
      ground (arith, set_word_outside (set_word p 32 t) 36 x j, set_word_outside p 32 t j)

fill_dentry-typed :
    (fs : Filesys) (k len : ℕ) (d : Dentry)
    → fill_dentry fs k len d
      ≡ typed (zero_fill (32 - len) len d) (load fs (64 * k + 32)) (entry_inode fs k)
unfolding fill_dentry typed
fill_dentry-typed fs k len d = elim (Bool-cases (load fs (64 * k + 32) == reg_file)) [
  | inl e ↦ rw e
  | inr e ↦ rw e
]

entry_inode-lt : (fs : Filesys) (k : ℕ) → entry_inode fs k < 2 ^ 32
entry_inode-lt fs k = ground (arith, load-lt fs (64 * k + 36))

pub filetype-fill_dentry :
    (fs : Filesys) (k len : ℕ) (d : Dentry)
    → filetype (fill_dentry fs k len d) ≡ load fs (64 * k + 32)
filetype-fill_dentry fs k len d = rw fill_dentry-typed (filetype-typed _ _ _ (load-lt fs _))

pub inode_num-fill_dentry :
    (fs : Filesys) (k len : ℕ) (d : Dentry) → inode_num (fill_dentry fs k len d) ≡ entry_inode fs k
unfolding typed
inode_num-fill_dentry fs k len d =
    rw fill_dentry-typed (word-set_word_self _ 36 _ (entry_inode-lt fs k))

pub fill_dentry_lem :
    (fs : Filesys) (k len : ℕ) (d : Dentry) (j : ℕ)
    → (j < 32) ⊎ (40 ≤ j)
    → fill_dentry fs k len d j ≡ (if ltb j 32 then if ltb j len then d j else 0 else d j)
fill_dentry_lem fs k len d j h =
    rw fill_dentry-typed
      (typed_outside _ _ _ j h ∙ ground (arith, zero_fill_lem (32 - len) len d j))

-- A dentry describes entry `k` of the directory: the name padded with zeros, the type, and the
-- inode number of a regular file or 0.
pub record Describes (fs : Filesys) (k len : ℕ) (d : Dentry) : Type 0 where
  pub name : (j : ℕ) → j < 32 → d j ≡ (if ltb j len then byte_at (chars fs (64 * k)) j else 0)
  pub type : filetype d ≡ load fs (64 * k + 32)
  pub inode : inode_num d ≡ entry_inode fs k

pub dentry_of_entry-Describes :
    (fs : Filesys) (k len : ℕ) (d : Dentry)
    → HasLength (chars fs (64 * k)) len
    → Describes fs k len (dentry_of_entry fs k len d)
unfolding dentry_of_entry
dentry_of_entry-Describes fs k len d h = record {
  name = λ j p. ground (
    arith,
    fill_dentry_lem fs k len (strncpy d (chars fs (64 * k)) len) j,
    strncpy_all d (chars fs (64 * k)) len j h,
  );
  type = filetype-fill_dentry fs k len _;
  inode = inode_num-fill_dentry fs k len _;
}
