-- ===== src/Programs.antt =====
-- The user programs of syscalls, over the calls of syscalls/ece391syscall.h.
pub mod Support
pub mod Files
pub mod Grep
pub mod Console
pub mod Syserr
pub mod Terminal
pub mod Cat
pub mod Counter
pub mod Ls
pub mod OnKernel
mod Tests
use linux_based_os.Prelude.{bind, map_some, ℕ, Bool, Bytes, ℤ, pos, negsuc, Option, none, some}

-- A program's part on the state `S` of the system, with its result; `none` where it never returns
-- or the fuel of a loop runs out.
abbrev pub Program : Type 0 → Type 0 → Type 0
Program S A = S → Option (A × S)

infixl 5 ◌>>=◌ ◌>>◌
abbrev pub ◌>>=◌ : {S A B : Type 0} → Program S A → (A → Program S B) → Program S B
◌>>=◌ m f s = bind (m s) (λ r. f r.0 r.1)

abbrev pub ◌>>◌ : {S B : Type 0} → Program S (Unit {0}) → Program S B → Program S B
◌>>◌ m f s = bind (m s) (λ r. f r.1)

abbrev pub return : {S A : Type 0} → A → Program S A
return a s = some (a, s)

abbrev pub lift : {S A : Type 0} → Option A → Program S A
lift o s = map_some (λ a. (a, s)) o

-- The system calls. A call that fills a buffer has its contents for a part of its result, and the
-- pointer of ece391_vidmap is an address.
pub record Os (S : Type 0) : Type 0 where
  pub ece391_read : ℤ → Bytes → ℤ → Program S (ℤ × Bytes)
  pub ece391_write : ℤ → Bytes → ℤ → Program S ℤ
  pub ece391_open : Bytes → Program S ℤ
  pub ece391_close : ℤ → Program S ℤ
  pub ece391_getargs : Bytes → ℤ → Program S (ℤ × Bytes)
  pub ece391_vidmap : ℕ → Program S ℤ
  pub ece391_execute : Bytes → Program S ℤ
  pub call_sys : ℤ → Program S ℤ

-- "All calls return >= 0 on success or -1 on failure": the count of a success.
abbrev pub count : ℤ → ℕ
count (pos n) = n
count (negsuc n) = 0
