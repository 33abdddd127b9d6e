-- ===== src/Programs/Terminal.antt =====
-- What the programs of syscalls need of the calls on the terminal and on an open file, and what
-- syscalls/ece391support.c makes of it.
use linux_based_os.Prelude.{
  ℕ, zero, suc, ◌+◌, ◌-◌, ◌^◌, ◌<◌, ◌≡◌, refl, ap, ◌∙◌, arith, min, Bytes, byte_at, ℤ, pos, some,
  lt→ltb,
}
use linux_based_os.Cstring.Scan.{HasLength, strlen_lem}
use linux_based_os.Screen.{Screen, putc_terminal}
use linux_based_os.Keyboard.Terminal.{write_loop}
use linux_based_os.Programs.{Os}
use linux_based_os.Programs.Support.Kernel.{ece391_strlen-eq}
use linux_based_os.Programs.Support.{ece391_fdputs}

-- A state from which programs go on: standard output is the terminal.
pub record IsTerminal {S : Type 0} (os : Os S) (Ready : S → Type 0) (screen : S → Screen)
    : Type 0 where
  pub writes :
      (s : S) (buf : Bytes) (n : ℕ)
      → Ready s
      → n < 2 ^ 31
      → (s' : S) × (os.ece391_write (pos 1) buf (pos n) s ≡ some (pos n, s'))
        × Ready s'
        × (screen s' ≡ write_loop n 0 buf (screen s))

-- A descriptor at position `p` of a file, for `At p`.
pub record IsReader {S : Type 0} (os : Os S) (Ready : S → Type 0) (screen : S → Screen) (fd : ℤ)
    (At : ℕ → S → Type 0) (size : ℕ) (content : Bytes) : Type 0 where
  pub reads :
      (s : S) (p n : ℕ) (buf : Bytes)
      → Ready s
      → At p s
      → n < 2 ^ 31
      → (buf' : Bytes) × (s' : S) × (os.ece391_read fd buf (pos n) s
          ≡ some ((pos (min n (size - p)), buf'), s'))
        × Ready s'
        × At (p + min n (size - p)) s'
        × (screen s' ≡ screen s)
        × ((j : ℕ) → j < min n (size - p) → buf' j ≡ content (p + j))
  pub kept :
      (s s' : S) (p n : ℕ) (buf : Bytes) (r : ℤ)
      → Ready s
      → At p s
      → n < 2 ^ 31
      → os.ece391_write (pos 1) buf (pos n) s ≡ some (r, s')
      → At p s'

-- The terminal shows what is typed in order, from any buffer that holds it.
pub write_loop-same :
    (n i p : ℕ) (buf content : Bytes) (s : Screen)
    → ((j : ℕ) → j < n → buf (i + j) ≡ content (p + j))
    → write_loop n i buf s ≡ write_loop n p content s
unfolding write_loop
write_loop-same zero i p buf content s h = refl
write_loop-same (suc n) i p buf content s h =
    let first : buf i ≡ content p =
      ap buf (omega arith) ∙ h 0 (omega arith) ∙ ap content (omega arith) in
    rw first (
      write_loop-same n (i + 1) (p + 1) buf content _
        λ j q. ap buf (omega arith) ∙ h (j + 1) (omega arith) ∙ ap content (omega arith))

pub write_loop-add :
    (a b p : ℕ) (content : Bytes) (s : Screen)
    → write_loop b (p + a) content (write_loop a p content s) ≡ write_loop (a + b) p content s
unfolding write_loop
write_loop-add zero b p content s =
    let at : p + 0 ≡ p = omega arith in let all : 0 + b ≡ b = omega arith in rw (at, all) refl
write_loop-add (suc a) b p content s =
    let next = putc_terminal s (byte_at content p) in
    let at : p + suc a ≡ p + 1 + a = omega arith in
    let all : suc a + b ≡ suc (a + b) = omega arith in
    rw (at, all) (write_loop-add a b (p + 1) content next)

module _ {S : Type 0} (os : Os S) (Ready : S → Type 0) (screen : S → Screen)
    (t : IsTerminal os Ready screen) where
  -- ece391_fdputs on standard output shows its string.
  pub fdputs-shows :
      (s : S) (str : Bytes) (n : ℕ)
      → Ready s
      → HasLength str n
      → n < 2 ^ 31
      → (s' : S) × (ece391_fdputs os (pos 1) str s ≡ some (tt, s'))
        × Ready s'
        × (screen s' ≡ write_loop n 0 str (screen s))
  unfolding ece391_fdputs
  fdputs-shows s str n ready h small =
      let len = ece391_strlen-eq str ∙ strlen_lem str n h (omega arith) in
      let (s', e, ready', shown) = t.writes s str n ready small in
      (s', rw (len, lt→ltb n (2 ^ 31) small, e) refl, ready', shown)
