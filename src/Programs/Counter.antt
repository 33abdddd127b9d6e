-- ===== src/Programs/Counter.antt =====
-- counter_loop of syscalls/ece391counter.c counts on the screen.
use linux_based_os.Prelude.{
  ℕ, zero, suc, ◌+◌, ◌^◌, ◌<◌, ◌≡◌, refl, ◌∙◌, arith, Bytes, pos, some, ap,
}
use mathlib.Core.Path.{subst}
use linux_based_os.Cstring.Scan.{HasLength}
use linux_based_os.Cstring.Itoa.{number, itoa_lem}
use linux_based_os.Screen.{Screen}
use linux_based_os.Keyboard.Terminal.{write_loop}
use linux_based_os.Programs.{Os}
use linux_based_os.Programs.Support.{text}
use linux_based_os.Programs.Support.Kernel.{ece391_itoa-eq}
use linux_based_os.Programs.Console.{counter_loop}
use linux_based_os.Programs.Terminal.{IsTerminal, fdputs-shows}

-- From the first screen to the second, `left` numbers from `i` + 1 on have been shown in decimal,
-- each on a line of its own.
pub data Counted : ℕ → ℕ → Screen → Screen → Type 0 where
  counted : {i : ℕ} → {s : Screen} → Counted 0 i s s
  line :
      {left i n : ℕ}
      → {out : Bytes} → {s t : Screen} → HasLength out n
      → number 10 out n ≡ i + 1
      → Counted left (i + 1) (write_loop 1 0 (text "\n") (write_loop n 0 out s)) t
      → Counted (suc left) i s t

newline_length : HasLength (text "\n") 1
newline_length = record { ends = refl; before = λ j p. ground arith }

module _ {S : Type 0} (os : Os S) (Ready : S → Type 0) (screen : S → Screen)
    (t : IsTerminal os Ready screen) where
  -- counter_loop shows the numbers after `i`, `left` of them, in decimal and in order, each on a
  -- line of its own, and returns 0, where the numbers stay below 2 ^ 31 - 1. It asks of the system
  -- calls that a write to standard output shows what is written.
  pub counter_loop-Counted :
      (left i : ℕ) (buf : Bytes) (s : S)
      → Ready s
      → i + left + 1 < 2 ^ 31
      → (s' : S) × (counter_loop os left i buf s ≡ some (pos 0, s'))
        × Ready s'
        × Counted left i (screen s) (screen s')
  unfolding counter_loop
  counter_loop-Counted zero i buf s ready small = (s, refl, ready, counted)
  counter_loop-Counted (suc left) i buf s ready small =
      let (n, out, e, ends, some_digit, short, value) =
        itoa_lem (i + 1) buf 10 (omega arith) (omega arith) (omega arith) in
      let digits = ece391_itoa-eq (i + 1) buf 10 ∙ e in
      let (s1, e1, ready1, shown1) =
        fdputs-shows os Ready screen t s out n ready ends (omega arith) in
      let (s2, e2, ready2, shown2) =
        fdputs-shows os Ready screen t s1 (text "\n") 1 ready1 newline_length (omega arith) in
      let (s3, e3, ready3, rest) = counter_loop-Counted left (i + 1) out s2 ready2 (omega arith) in
      let lines = shown2 ∙ ap (write_loop 1 0 (text "\n")) shown1 in
      (
        s3,
        rw (digits, e1, e2) e3,
        ready3,
        line ends value (subst (λ x. Counted left (i + 1) x (screen s3)) lines rest),
      )
