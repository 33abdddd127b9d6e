-- ===== src/Programs/Cat.antt =====
-- syscalls/ece391cat.c shows the file.
use linux_based_os.Prelude.{
  ℕ, zero, suc, ◌+◌, ◌-◌, ◌<◌, ◌≡◌, refl, ap, ◌∙◌, arith, min, false, ◌==◌, Bytes, ℤ, pos,
  is_minus_one, Option, some, ne→==,
}
use native.Mathlib.Decide.{ℕ_discrete}
use linux_based_os.Screen.{Screen}
use linux_based_os.Keyboard.Terminal.{write_loop}
use linux_based_os.Programs.{Os}
use linux_based_os.Programs.Files.{cat_loop, cat_main}
use linux_based_os.Programs.Terminal.{IsTerminal, IsReader, write_loop-same, write_loop-add}

module _ {S : Type 0} (os : Os S) (Ready : S → Type 0) (screen : S → Screen)
    (t : IsTerminal os Ready screen) where
  module _ (fd : ℤ) (At : ℕ → S → Type 0) (size : ℕ) (content : Bytes)
      (f : IsReader os Ready screen fd At size content) where
    -- The states in which cat has shown the file to its end.
    abbrev Shown : ℕ → S → Option (ℤ × S) → Type 0
    Shown p s o =
        (s' : S) × (o ≡ some (pos 0, s'))
        × Ready s'
        × (screen s' ≡ write_loop (size - p) p content (screen s))

    cat_ended :
        (fuel p : ℕ) (buf buf' : Bytes) (s s' : S)
        → min 1024 (size - p) ≡ 0
        → os.ece391_read fd buf (pos 1024) s ≡ some ((pos (min 1024 (size - p)), buf'), s')
        → Ready s'
        → screen s' ≡ screen s
        → Shown p s (cat_loop os (suc fuel) fd buf s)
    unfolding cat_loop write_loop
    cat_ended fuel p buf buf' s s' z e ready same =
        let ended : size - p ≡ 0 = omega (arith, z) in (s', rw (e, z) refl, ready, rw ended same)

    cat_shows :
        (fuel p : ℕ) (buf : Bytes) (s : S)
        → Ready s
        → At p s
        → size - p < fuel
        → Shown p s (cat_loop os fuel fd buf s)
    unfolding cat_loop
    cat_shows zero p buf s ready at enough = absurd (omega arith)
    cat_shows (suc fuel) p buf s ready at enough =
        let m = min 1024 (size - p) in
        let (buf', s1, e, ready1, at1, same, bytes) = f.reads s p 1024 buf ready at (omega arith) in
        elim (ℕ_discrete m 0) [
          | yes z ↦ cat_ended fuel p buf buf' s s1 z e ready1 same
          | no nz ↦
              let (s2, e2, ready2, shown) = t.writes s1 buf' m ready1 (omega arith) in
              let at2 = f.kept s1 s2 (p + m) m buf' (pos m) ready1 at1 (omega arith) e2 in
              let (s3, e3, ready3, shown3) =
                cat_shows fuel (p + m) buf' s2 ready2 at2 (omega (arith, nz)) in
              let more : (m == 0) ≡ false = ne→== m 0 nz in
              (
                s3,
                rw (e, more, e2) e3,
                ready3,
                shown3
                    ∙ ap (write_loop (size - (p + m)) (p + m) content) (
                        shown
                        ∙ ap (write_loop m 0 buf') same
                        ∙ write_loop-same m 0 p buf' content (screen s)
                            (λ j q. ap buf' (omega arith) ∙ bytes j q))
                    ∙ write_loop-add m (size - (p + m)) p content (screen s)
                    ∙ ap (λ q. write_loop q p content (screen s)) (omega arith),
              )
        ]

    -- cat shows exactly the bytes of the file on the terminal, from its first to its last, and
    -- returns 0, given more fuel than the file has bytes: each round reads at least one.
    pub cat_main-shows :
        (fuel : ℕ) (buf name : Bytes) (s s0 s1 : S)
        → os.ece391_getargs buf (pos 1024) s ≡ some ((pos 0, name), s0)
        → os.ece391_open name s0 ≡ some (fd, s1)
        → is_minus_one fd ≡ false
        → Ready s1
        → At 0 s1
        → size < fuel
        → Shown 0 s1 (cat_main os fuel buf s)
    unfolding cat_main
    cat_main-shows fuel buf name s s0 s1 args opened good ready at enough =
        let (s', e, ready', shown) = cat_shows fuel 0 name s1 ready at (omega arith) in
        (s', rw (args, opened, good) e, ready', shown)
