-- ===== src/Programs/Ls.antt =====
-- syscalls/ece391ls.c shows the names of a directory.
use linux_based_os.Prelude.{
  ℕ, zero, suc, ◌+◌, ◌^◌, ◌<◌, ◌≤◌, ◌≡◌, refl, ap, sym, ◌∙◌, arith, false, ◌==◌, Bytes, update,
  update_self, update_ne, ℤ, pos, some, ne→==,
}
use linux_based_os.Screen.{Screen}
use linux_based_os.Keyboard.Terminal.{write_loop}
use linux_based_os.Programs.{Os}
use linux_based_os.Programs.Files.{ls_loop}
use linux_based_os.Programs.Terminal.{IsTerminal, write_loop-same, write_loop-add}

-- A descriptor behind entry `i` of a directory, for `At i`.
pub record IsLister {S : Type 0} (os : Os S) (Ready : S → Type 0) (screen : S → Screen) (fd : ℤ)
    (At : ℕ → S → Type 0) (names : ℕ → Bytes) (lens : ℕ → ℕ) (total : ℕ) : Type 0 where
  pub lists :
      (s : S) (i : ℕ) (buf : Bytes)
      → Ready s
      → At i s
      → i < total
      → (buf' : Bytes) × (s' : S) × (os.ece391_read fd buf (pos 32) s
          ≡ some ((pos (lens i), buf'), s'))
        × Ready s'
        × At (i + 1) s'
        × (screen s' ≡ screen s)
        × ((j : ℕ) → j < lens i → buf' j ≡ names i j)
  pub ends :
      (s : S) (i : ℕ) (buf : Bytes)
      → Ready s
      → At i s
      → total ≤ i
      → (buf' : Bytes) × (s' : S) × (os.ece391_read fd buf (pos 32) s ≡ some ((pos 0, buf'), s'))
        × Ready s'
        × (screen s' ≡ screen s)
  pub kept :
      (s s' : S) (i n : ℕ) (buf : Bytes) (r : ℤ)
      → Ready s
      → At i s
      → os.ece391_write (pos 1) buf (pos n) s ≡ some (r, s')
      → n < 2 ^ 31
      → At i s'
  pub visible : (i : ℕ) → i < total → (0 < lens i) × (lens i ≤ 32)

-- The screen with `left` names from the one at `i` on, each on a line of its own.
unfoldable pub listing : ℕ → ℕ → (ℕ → Bytes) → (ℕ → ℕ) → Screen → Screen
listing zero i names lens s = s
listing (suc left) i names lens s =
    listing left (i + 1) names lens
      (write_loop 1 0 (λ j. b'\n') (write_loop (lens i) 0 (names i) s))

-- A name with the newline behind it is one line.
line_shown :
    (len : ℕ) (buf name : Bytes) (s : Screen)
    → ((j : ℕ) → j < len → buf j ≡ name j)
    → write_loop (len + 1) 0 (update buf len b'\n') s
      ≡ write_loop 1 0 (λ j. b'\n') (write_loop len 0 name s)
line_shown len buf name s h =
    let line = update buf len b'\n' in
    sym (write_loop-add len 1 0 line s)
    ∙ ap (write_loop 1 (0 + len) line) (
        write_loop-same len 0 0 line name s (λ j p.
          update_ne buf len b'\n' (0 + j) (omega arith)
          ∙ ap buf (omega arith)
          ∙ h j p
          ∙ ap name (omega arith)))
    ∙ write_loop-same 1 (0 + len) 0 line (λ j. b'\n') _
        (λ j p. ap line (omega arith) ∙ update_self buf len b'\n')

module _ {S : Type 0} (os : Os S) (Ready : S → Type 0) (screen : S → Screen)
    (t : IsTerminal os Ready screen) (fd : ℤ) (At : ℕ → S → Type 0) (names : ℕ → Bytes)
    (lens : ℕ → ℕ) (total : ℕ) (f : IsLister os Ready screen fd At names lens total) where
  -- ls shows the names from the one at the position on, and returns 0.
  pub ls_shows :
      (left i fuel : ℕ) (buf : Bytes) (s : S)
      → Ready s
      → At i s
      → i + left ≡ total
      → left < fuel
      → (s' : S) × (ls_loop os fuel fd buf s ≡ some (pos 0, s'))
        × Ready s'
        × (screen s' ≡ listing left i names lens (screen s))
  unfolding ls_loop listing
  ls_shows left i zero buf s ready at whole enough = absurd (omega arith)
  ls_shows zero i (suc fuel) buf s ready at whole enough =
      let (buf', s', e, ready', same) = f.ends s i buf ready at (omega arith) in
      (s', rw e refl, ready', same)
  ls_shows (suc left) i (suc fuel) buf s ready at whole enough =
      let (buf', s1, e, ready1, at1, same, bytes) = f.lists s i buf ready at (omega arith) in
      let some_name = f.visible i (omega arith) in
      let line = update buf' (lens i) b'\n' in
      let (s2, e2, ready2, shown) =
        t.writes s1 line (lens i + 1) ready1 (omega (arith, some_name)) in
      let at2 =
        f.kept s1 s2 (i + 1) (lens i + 1) line (pos (lens i + 1)) ready1 at1 e2
          (omega (arith, some_name)) in
      let (s3, e3, ready3, shown3) =
        ls_shows left (i + 1) fuel line s2 ready2 at2 (omega arith) (omega arith) in
      let more : (lens i == 0) ≡ false = ne→== (lens i) 0 (omega (arith, some_name)) in
      (
        s3,
        rw (e, more, e2) e3,
        ready3,
        shown3
            ∙ ap (listing left (i + 1) names lens) (
                shown
                ∙ ap (write_loop (lens i + 1) 0 line) same
                ∙ line_shown (lens i) buf' (names i) (screen s) bytes),
      )
