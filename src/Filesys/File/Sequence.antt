-- ===== src/Filesys/File/Sequence.antt =====
-- A sequence of reads of student-distrib/filesys.c against the contents of the file.
use linux_based_os.Prelude.{
  ℕ, zero, suc, ◌+◌, ◌-◌, ◌^◌, ◌<◌, ◌≡◌, refl, ap, ap₂, sym, ◌∙◌, arith, some, min, Bytes, ℤ, pos,
  negsuc, length, List, [], ◌∷◌, ◌++◌,
}
use linux_based_os.Pcb.{FileArray, desc}
use linux_based_os.Filesys.{Filesys}
use linux_based_os.Filesys.Data.Contents.{file_size, file_byte}
use linux_based_os.Filesys.File.{file_read}
use linux_based_os.Filesys.File.Read.{IsOpen, available, file_read-IsRead}

-- A program's calls of read on one descriptor, with a buffer for each, and the bytes that they
-- deliver one behind the other.
unfoldable pub listed : ℕ → ℕ → Bytes → List ℕ
listed i zero buf = []
listed i (suc n) buf = buf i ∷ listed (i + 1) n buf

abbrev pub count_of : ℤ → ℕ
count_of (pos n) = n
count_of (negsuc n) = 0

unfoldable pub read_calls : Filesys → FileArray → ℕ → List ℕ → List ℕ
unfolding listed
read_calls fs files fd [] = []
read_calls fs files fd (n ∷ ns) =
    let r = file_read fs files (pos fd) (some (λ j. 0)) (pos n) in
    listed 0 (count_of r.ret) r.buf ++ read_calls fs r.files fd ns

-- The bytes of a file from position `p` on.
unfoldable pub slice : Filesys → ℕ → ℕ → ℕ → List ℕ
slice fs inode p zero = []
slice fs inode p (suc n) = file_byte fs inode p ∷ slice fs inode (p + 1) n

unfoldable pub total : List ℕ → ℕ
total [] = 0
total (n ∷ ns) = n + total ns

abbrev pub AllSmall : List ℕ → Type 0
AllSmall [] = Unit {0}
AllSmall (n ∷ ns) = (n < 2 ^ 31) × AllSmall ns

sum_suc : (a b : ℕ) → suc a + b ≡ suc (a + b)
sum_suc a b = omega arith

slice-append :
    (fs : Filesys) (inode p a b : ℕ)
    → slice fs inode p (a + b) ≡ slice fs inode p a ++ slice fs inode (p + a) b
unfolding slice
slice-append fs inode p zero b = ap₂ (slice fs inode) (omega arith) (omega arith)
slice-append fs inode p (suc a) b =
    ap (slice fs inode p) (sum_suc a b)
    ∙ ap (λ l. file_byte fs inode p ∷ l)
        (slice-append fs inode (p + 1) a b
          ∙ ap (λ q. slice fs inode (p + 1) a ++ slice fs inode q b) (omega arith))

listed-slice :
    (fs : Filesys) (inode p i n : ℕ) (buf : Bytes)
    → ((j : ℕ) → j < n → buf (i + j) ≡ file_byte fs inode (p + j))
    → listed i n buf ≡ slice fs inode p n
unfolding listed slice
listed-slice fs inode p i zero buf h = refl
listed-slice fs inode p i (suc n) buf h =
    ap₂ ◌∷◌ (ap buf (omega arith) ∙ h 0 (omega arith) ∙ ap (file_byte fs inode) (omega arith)) (
      listed-slice fs inode (p + 1) (i + 1) n buf (λ j q.
        ap buf (omega arith) ∙ h (suc j) (omega arith) ∙ ap (file_byte fs inode) (omega arith)))

none_left : (n : ℕ) → min 0 n ≡ 0
none_left n = omega arith

-- However a program cuts its reads, what they deliver together is the file from the position on,
-- as far as the reads ask and the file goes.
pub read_calls-slice :
    (fs : Filesys) (files : FileArray) (fd : ℕ) (ns : List ℕ)
    → fd < length files
    → IsOpen fs (desc files fd)
    → AllSmall ns
    → read_calls fs files fd ns
      ≡ slice fs
          (desc files fd).inode
          (desc files fd).file_pos
          (available fs (desc files fd) (total ns))
unfolding read_calls total slice
read_calls-slice fs files fd [] present v small = sym (
    ap (slice fs (desc files fd).inode (desc files fd).file_pos)
      (none_left (file_size fs (desc files fd).inode - (desc files fd).file_pos)))
read_calls-slice fs files fd (n ∷ ns) present v small =
    let r = file_read fs files (pos fd) (some (λ j. 0)) (pos n) in
    let done = file_read-IsRead fs files fd n (λ j. 0) present v small.0 in
    let ih = read_calls-slice fs r.files fd ns (omega (arith, done.size)) done.still_open small.1 in
    let f = desc files fd in
    let k = available fs f n in
    let t = total ns in
    ap₂ ◌++◌
      (ap (λ z. listed 0 (count_of z) r.buf) done.delivers.ret
        ∙ listed-slice fs f.inode f.file_pos 0 k r.buf
            (λ j q. ap r.buf (omega arith) ∙ done.delivers.bytes j q))
      (ih ∙ ap₂ (λ i q. slice fs i q (min t (file_size fs i - q))) done.same_inode done.moved)
    ∙ sym (slice-append fs f.inode f.file_pos k (min t (file_size fs f.inode - (f.file_pos + k))))
    ∙ ap (slice fs f.inode f.file_pos) (omega arith)
