-- ===== src/Filesys/Dentry/ByName.antt =====
-- The search of read_dentry_by_name student-distrib/filesys.c finds the first entry of that name.
use mathlib.Core.Path.{subst}
use linux_based_os.Prelude.{
  ℕ, zero, suc, ◌+◌, ◌*◌, ◌^◌, ◌<◌, ◌≤◌, ◌≡◌, ◌≢◌, ◌↔◌, inl, inr, refl, ◌∙◌, sym, arith, tests,
  ==→eq, some, leb, ◌==◌, true, false, Bool-cases, Bytes, byte_at, pos, ℤ, negsuc,
}
use linux_based_os.Cstring.{strncmp}
use linux_based_os.Cstring.Scan.{HasLength, strlen_lem}
use linux_based_os.Cstring.Copy.{strncpy_all}
use linux_based_os.Cstring.Compare.{Agree, strncmp_iff}
use linux_based_os.Filesys.{Filesys, chars}
use linux_based_os.Filesys.Dentry.{Search, missing, found, search_loop, copy_name, is_zero}

-- Every entry from `lo` to before `hi` has a name that ends somewhere.
abbrev pub NamesEnd : Filesys → ℕ → ℕ → Type 0
NamesEnd fs lo hi =
    (k : ℕ) → lo ≤ k → k < hi → (len : ℕ) × HasLength (chars fs (64 * k)) len × (len < 2 ^ 32)

-- The name of entry `k` is `fname`, as far as 32 characters.
abbrev pub SameName : Filesys → Bytes → ℕ → Type 0
SameName fs fname k = Agree 0 32 fname (chars fs (64 * k))

copy_name_at :
    (fs : Filesys) (k len : ℕ) (buf : Bytes) (j : ℕ)
    → HasLength (chars fs (64 * k)) len
    → j ≤ len
    → j < 32
    → byte_at (copy_name fs k len buf) j ≡ byte_at (chars fs (64 * k)) j
unfolding copy_name
copy_name_at fs k len buf j h p q =
    ground (arith, h.ends, strncpy_all buf (chars fs (64 * k)) len j h)

copy_name_before :
    (fs : Filesys) (k len : ℕ) (buf : Bytes) (j : ℕ)
    → HasLength (chars fs (64 * k)) len
    → j < len
    → byte_at (copy_name fs k len buf) j ≡ byte_at (chars fs (64 * k)) j
unfolding copy_name
copy_name_before fs k len buf j h p = ground (arith, strncpy_all buf (chars fs (64 * k)) len j h)

-- Agreement needs only the characters up to the NUL.
Agree-transfer :
    (n len : ℕ) (s t t' : Bytes)
    → (len < n → byte_at t len ≡ 0)
    → ((j : ℕ) → j ≤ len → j < n → byte_at t j ≡ byte_at t' j)
    → Agree 0 n s t
    → Agree 0 n s t'
Agree-transfer n len s t t' ends same h j p q r = elim (Bool-cases (leb j len)) [
  | inl within ↦ h j p q r ∙ same j (ground arith) q
  | inr past ↦
      let before : len < j = ground arith in
      absurd (
        r len (omega arith) before
          (h len (omega arith) (omega arith) (λ k u v. r k u (omega arith)) ∙ ends (omega arith)))
]

copy_name-Agree :
    (fs : Filesys) (fname : Bytes) (k len : ℕ) (buf : Bytes)
    → HasLength (chars fs (64 * k)) len
    → (strncmp fname (copy_name fs k len buf) 32 ≡ pos 0) ↔ SameName fs fname k
copy_name-Agree fs fname k len buf h = (
  λ e.
      Agree-transfer 32 len fname (copy_name fs k len buf) (chars fs (64 * k))
        (λ p. copy_name_at fs k len buf len h (omega arith) p ∙ h.ends)
        (λ j p q. copy_name_at fs k len buf j h p q)
        ((strncmp_iff fname (copy_name fs k len buf) 32).0 e),
  λ a. (strncmp_iff fname (copy_name fs k len buf) 32).1 (
      Agree-transfer 32 len fname (chars fs (64 * k)) (copy_name fs k len buf) (λ p. h.ends)
        (λ j p q. sym (copy_name_at fs k len buf j h p q)) a),
)

is_zero_iff : (z : ℤ) → (is_zero z ≡ true) ↔ (z ≡ pos 0)
is_zero_iff (pos n) = (λ e. ground arith, λ e. ground arith)
is_zero_iff (negsuc n) = (λ e. ground arith, λ e. ground arith)

not_zero : (z : ℤ) → is_zero z ≡ false → z ≢ pos 0
not_zero z e f = absurd (ground (arith, (is_zero_iff z).1 f))

-- How the search from entry `lo` on, up to but not including `hi`, ends.
abbrev pub Ends : Filesys → Bytes → ℕ → ℕ → Search → Type 0
Ends fs fname lo hi (missing buf) = (k : ℕ) → lo ≤ k → k < hi → ¬ SameName fs fname k
Ends fs fname lo hi (found k len buf) =
    (lo ≤ k)
    × (k < hi)
    × SameName fs fname k
    × ((i : ℕ) → lo ≤ i → i < k → ¬ SameName fs fname i)
    × HasLength (chars fs (64 * k)) len
    × ((j : ℕ) → j < len → byte_at buf j ≡ byte_at (chars fs (64 * k)) j)

Ends-later :
    (fs : Filesys) (fname : Bytes) (lo hi : ℕ) (s : Search)
    → ¬ SameName fs fname lo
    → Ends fs fname (lo + 1) hi s
    → Ends fs fname lo hi s
Ends-later fs fname lo hi (missing buf) other h = λ k p q. elim (Bool-cases (k == lo)) [
  | inl e ↦ rw (==→eq _ _ e) other
  | inr e ↦ h k (omega tests) q
]
Ends-later fs fname lo hi (found k len buf) other h = (
  omega (arith, h.0),
  h.1,
  h.2,
  λ i p q. elim (Bool-cases (i == lo)) [
    | inl e ↦ rw (==→eq _ _ e) other
    | inr e ↦ h.3 i (omega tests) q
  ],
  h.4,
  h.5,
)

pub search_loop-Ends :
    (fs : Filesys) (fname : Bytes) (left it : ℕ) (buf : Bytes)
    → NamesEnd fs it (it + left)
    → (s : Search) × (search_loop fs fname left it buf ≡ some s) × Ends fs fname it (it + left) s
unfolding search_loop
search_loop-Ends fs fname zero it buf names = (missing buf, refl, λ k p q. absurd (omega arith))
search_loop-Ends fs fname (suc left) it buf names =
    let (len, h, fits) = names it (omega arith) (omega arith) in
    let buf' = copy_name fs it len buf in
    let (s, e, ends) =
      search_loop-Ends fs fname left (it + 1) buf' (λ k p q. names k (omega arith) (omega arith)) in
    elim (Bool-cases (is_zero (strncmp fname buf' 32))) [
      | inl hit ↦ (
        found it len buf',
        rw (strlen_lem _ len h fits, hit),
        (
          omega arith,
          omega arith,
          (copy_name-Agree fs fname it len buf h).0 ((is_zero_iff _).0 hit),
          λ i p q. absurd (omega arith),
          h,
          λ j p. copy_name_before fs it len buf j h p,
        ),
      )
      | inr miss ↦ (
        s,
        rw (strlen_lem _ len h fits, miss) e,
        Ends-later fs fname it (it + suc left) s
            (λ same. not_zero _ miss ((copy_name-Agree fs fname it len buf h).1 same))
            (subst (λ hi. Ends fs fname (it + 1) hi s) (omega arith) ends),
      )
    ]
