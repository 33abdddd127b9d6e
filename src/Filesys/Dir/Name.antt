-- ===== src/Filesys/Dir/Name.antt =====
-- The name that dir_read of student-distrib/filesys.c copies, character by character.
use linux_based_os.Prelude.{
  ℕ, zero, suc, ◌+◌, ◌*◌, ◌<◌, ◌≤◌, ◌≡◌, ◌≢◌, ap, arith, min, Bytes, byte_at, update, pos, ◌&&◌,
  ◌==◌, leb, ltb, if◌then◌else◌,
}
use linux_based_os.Cstring.Scan.{HasLength}
use linux_based_os.Filesys.{Filesys, chars}
use linux_based_os.Filesys.Dentry.Fill.{Describes}
use linux_based_os.Filesys.Dir.{copy_filename, end_filename}

-- A name field holds `m` characters: they are no NUL, and a NUL follows within the field if there
-- is room.
pub record HasName (name : Bytes) (m : ℕ) : Type 0 where
  pub short : m ≤ 32
  pub visible : (j : ℕ) → j < m → byte_at name j ≢ 0
  pub ends : m < 32 → byte_at name m ≡ 0

pub copy_filename_count :
    (left cnt : ℕ) (name : Bytes) (m n : ℕ) (buf : Bytes)
    → HasName name m
    → cnt ≤ min m n
    → cnt + left ≡ 32
    → (copy_filename left cnt name (pos n) buf).0 ≡ min m n
unfolding copy_filename
copy_filename_count zero cnt name m n buf h p e = omega (arith, h.short)
copy_filename_count (suc left) cnt name m n buf h p e = ground (
  arith,
  h.visible cnt,
  h.ends,
  copy_filename_count left (cnt + 1) name m n (update buf cnt (byte_at name cnt)) h,
)

pub copy_filename_bytes :
    (left cnt : ℕ) (name : Bytes) (m n : ℕ) (buf : Bytes) (j : ℕ)
    → HasName name m
    → cnt ≤ min m n
    → cnt + left ≡ 32
    → (copy_filename left cnt name (pos n) buf).1 j
      ≡ (if leb cnt j && ltb j (min m n) then byte_at name j else buf j)
unfolding copy_filename
copy_filename_bytes zero cnt name m n buf j h p e = ground (arith, h.short)
copy_filename_bytes (suc left) cnt name m n buf j h p e = ground (
  arith,
  h.visible cnt,
  h.ends,
  copy_filename_bytes left (cnt + 1) name m n (update buf cnt (byte_at name cnt)) j h,
)

pub end_filename_lem :
    (name : Bytes) (m n cnt : ℕ) (buf : Bytes) (j : ℕ)
    → HasName name m
    → cnt ≡ min m n
    → end_filename name cnt buf j ≡ (if j == cnt && leb m n then 0 else buf j)
unfolding end_filename
end_filename_lem name m n cnt buf j h e =
    ground (arith, h.short, h.visible cnt, ap (byte_at name) e, h.ends)

pub Describes-HasName :
    (fs : Filesys) (k len : ℕ) (d : Bytes)
    → HasLength (chars fs (64 * k)) len
    → Describes fs k len d
    → HasName d (min len 32)
Describes-HasName fs k len d h v = record {
  short = omega arith;
  visible = λ j p. ground (arith, h.before j, v.name j);
  ends = λ p. ground (arith, v.name (min len 32));
}
