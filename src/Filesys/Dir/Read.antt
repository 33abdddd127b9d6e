-- ===== src/Filesys/Dir/Read.antt =====
-- dir_read of student-distrib/filesys.c against the names of the directory.
use linux_based_os.Prelude.{
  ℕ, ◌+◌, ◌*◌, ◌/◌, ◌%◌, ◌^◌, ◌<◌, ◌≤◌, ◌≡◌, ◌≢◌, refl, ap, sym, ◌∙◌, arith, some, min, Bytes,
  byte_at, pos, length, length-set, not, ◌||◌, ◌&&◌, ◌==◌, leb, ltb, false, if◌then◌else◌, lt→leb,
  le→leb,
}
use linux_based_os.Cstring.Scan.{HasLength, strlen_lem}
use linux_based_os.Pcb.{FileArray, desc, desc-set_self, desc-set_ne}
use linux_based_os.Filesys.{Filesys, chars}
use linux_based_os.Filesys.Dentry.{global_read, read_dentry_by_index, dentry_of_entry, write_dest}
use linux_based_os.Filesys.Dentry.Fill.{Describes, dentry_of_entry-Describes}
use linux_based_os.Filesys.File.{is_in_use, is_out_of_range}
use linux_based_os.Filesys.File.Flags.{is_in_use_lem}
use linux_based_os.Filesys.Dir.{
  DirRead, dir_failed, dir_read, read_entry_name, copy_filename, end_filename, step_entry,
}
use linux_based_os.Filesys.Dir.Name.{
  HasName, copy_filename_count, copy_filename_bytes, end_filename_lem, Describes-HasName,
}
use linux_based_os.Filesys.Dentry.Lookup.{SameImage}

-- The globals after dir_read has looked up entry `k`.
abbrev pub with_entry : Filesys → ℕ → ℕ → Filesys
with_entry fs k len = record fs { read_dentry = dentry_of_entry fs k len fs.read_dentry }

-- A descriptor open on the directory, before its end, and the length of the name that is next.
pub record AtEntry (fs : Filesys) (files : FileArray) (fd len : ℕ) : Type 0 where
  pub in_range : (2 ≤ fd) × (fd < 8)
  pub present : length files ≡ 8
  pub is_directory : (desc files fd).flags % 4 ≡ 3
  pub before_end : (desc files fd).file_pos < fs.bblock.n_dir_entries
  pub entries_fit : fs.bblock.n_dir_entries < 2 ^ 32
  pub name_ends : HasLength (chars fs (64 * ((desc files fd).file_pos + 1))) len
  pub name_fits : len < 2 ^ 32

by_index_global :
    (fs : Filesys) (index len : ℕ)
    → index < fs.bblock.n_dir_entries
    → HasLength (chars fs (64 * (index + 1))) len
    → len < 2 ^ 32
    → read_dentry_by_index fs index global_read
      ≡ some (record { ret = pos 0; fs = with_entry fs (index + 1) len; dest = global_read })
unfolding read_dentry_by_index write_dest
by_index_global fs index len below h fits = rw (
  lt→leb fs.bblock.n_dir_entries index below,
  strlen_lem (chars fs (64 * (index + 1))) len h fits,
)

dir_read-eq :
    (fs : Filesys) (files : FileArray) (fd len n : ℕ) (buf : Bytes)
    → AtEntry fs files fd len
    → dir_read fs files (pos fd) (some buf) (pos n)
      ≡ some
          (read_entry_name files fd buf (pos n) (with_entry fs ((desc files fd).file_pos + 1) len))
unfolding dir_read
dir_read-eq fs files fd len n buf v =
    let r1 : is_out_of_range (pos fd) ≡ false = ground (arith, v.in_range) in
    let r2 : (not (is_in_use (desc files fd).flags) || ((desc files fd).flags / 2 % 2 == 0))
        ≡ false =
      ground (arith, is_in_use_lem (desc files fd).flags, v.is_directory) in
    let r3 = lt→leb fs.bblock.n_dir_entries (desc files fd).file_pos v.before_end in
    rw (
      r1,
      r2,
      r3,
      by_index_global fs (desc files fd).file_pos len v.before_end v.name_ends v.name_fits,
    )

-- What a read of the entry delivers: `k` characters of its name.
pub record IsEntryRead (fs : Filesys) (files : FileArray) (fd len n : ℕ) (buf : Bytes)
    (out : DirRead) : Type 0 where
  pub ret : out.ret ≡ pos (min (min len 32) n)
  pub name :
      (j : ℕ)
      → j < min (min len 32) n
      → out.buf j ≡ byte_at (chars fs (64 * ((desc files fd).file_pos + 1))) j
  pub ended :
      out.buf (min (min len 32) n) ≡ (if leb (min len 32) n then 0 else buf (min (min len 32) n))
  pub beyond : (j : ℕ) → min (min len 32) n < j → out.buf j ≡ buf j
  pub next : desc out.files fd ≡ record (desc files fd) { file_pos = (desc files fd).file_pos + 1 }
  pub others : (i : ℕ) → i ≢ fd → desc out.files i ≡ desc files i
  pub size : length out.files ≡ length files
  pub image : SameImage fs out.fs

module _ (fs : Filesys) (files : FileArray) (fd len n : ℕ) (buf : Bytes)
    (v : AtEntry fs files fd len) where
  abbrev entry : ℕ
  entry = (desc files fd).file_pos + 1

  abbrev filled : Bytes
  filled = dentry_of_entry fs entry len fs.read_dentry

  describes : Describes fs entry len filled
  describes = dentry_of_entry-Describes fs entry len fs.read_dentry v.name_ends

  named : HasName filled (min len 32)
  named = Describes-HasName fs entry len filled v.name_ends describes

  counted : (copy_filename 32 0 filled (pos n) buf).0 ≡ min (min len 32) n
  counted = copy_filename_count 32 0 filled (min len 32) n buf named (omega arith) refl

  bytes :
      (j : ℕ)
      → (copy_filename 32 0 filled (pos n) buf).1 j
        ≡ (if leb 0 j && ltb j (min (min len 32) n) then byte_at filled j else buf j)
  bytes j = copy_filename_bytes 32 0 filled (min len 32) n buf j named (omega arith) refl

  marked :
      (j : ℕ)
      → let (cnt, copied) = copy_filename 32 0 filled (pos n) buf in
        end_filename filled cnt copied j ≡ (if j == cnt && leb (min len 32) n then 0 else copied j)
  marked j = end_filename_lem filled (min len 32) n _ _ j named counted

  read_entry_name-IsEntryRead :
      IsEntryRead fs files fd len n buf
        (read_entry_name files fd buf (pos n) (with_entry fs entry len))
  unfolding read_entry_name step_entry
  read_entry_name-IsEntryRead = record {
    ret = ap pos counted;
    name = λ j p. ground (arith, marked j, bytes j, counted, describes.name j);
    ended = ground (arith, marked (min (min len 32) n), bytes (min (min len 32) n), counted);
    beyond = λ j p. ground (arith, marked j, bytes j, counted);
    next =
        let wraps : ((desc files fd).file_pos + 1) % 2 ^ 32 ≡ (desc files fd).file_pos + 1 =
          omega (arith, v.before_end, v.entries_fit) in
        desc-set_self files fd _ (omega (arith, v.in_range, v.present)) ∙ rw wraps;
    others = λ i p. desc-set_ne files fd i _ (λ q. p (sym q));
    size = length-set files fd _;
    image = record { mem = refl; filesys_ptr = refl; bblock = refl };
  }

-- dir_read delivers the name of the entry at the position, its first 32 characters at most and no
-- more than `n`, returns their number and moves the position by one. Where the whole name fits
-- into `n` characters a NUL follows it; no other place of the buffer, no other descriptor
-- and nothing of the image changes.
pub dir_read-IsEntryRead :
    (fs : Filesys) (files : FileArray) (fd len n : ℕ) (buf : Bytes)
    → AtEntry fs files fd len
    → (out : DirRead) × (dir_read fs files (pos fd) (some buf) (pos n) ≡ some out)
      × IsEntryRead fs files fd len n buf out
dir_read-IsEntryRead fs files fd len n buf v =
    (_, dir_read-eq fs files fd len n buf v, read_entry_name-IsEntryRead fs files fd len n buf v)

-- A name of exactly `n` characters makes dir_read write past the `n` places of the buffer.
pub dir_read_overruns :
    (fs : Filesys) (files : FileArray) (fd len : ℕ) (buf : Bytes)
    → AtEntry fs files fd len
    → len ≤ 32
    → buf len ≢ 0
    → (out : DirRead) × (dir_read fs files (pos fd) (some buf) (pos len) ≡ some out)
      × (out.ret ≡ pos len)
      × (out.buf len ≢ buf len)
dir_read_overruns fs files fd len buf v short dirty =
    let (out, e, r) = dir_read-IsEntryRead fs files fd len len buf v in
    let k : min (min len 32) len ≡ len = omega arith in
    (out, e, r.ret ∙ ap pos k, ground (arith, r.ended, ap out.buf k))

-- At the end of the directory dir_read returns 0 and changes nothing.
pub dir_read-end :
    (fs : Filesys) (files : FileArray) (fd n : ℕ) (buf : Bytes)
    → 2 ≤ fd
    → fd < 8
    → (desc files fd).flags % 4 ≡ 3
    → fs.bblock.n_dir_entries ≤ (desc files fd).file_pos
    → dir_read fs files (pos fd) (some buf) (pos n) ≡ some (dir_failed (pos 0) fs buf files)
unfolding dir_read
dir_read-end fs files fd n buf lo hi dir over =
    let r1 : is_out_of_range (pos fd) ≡ false = ground arith in
    let r2 : (not (is_in_use (desc files fd).flags) || ((desc files fd).flags / 2 % 2 == 0))
        ≡ false =
      ground (arith, is_in_use_lem (desc files fd).flags) in
    rw (r1, r2, le→leb fs.bblock.n_dir_entries (desc files fd).file_pos over)
