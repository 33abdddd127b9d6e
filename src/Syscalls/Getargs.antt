-- ===== src/Syscalls/Getargs.antt =====
-- sys_getargs_c of student-distrib/sys_calls.c on a command with arguments.
use linux_based_os.Prelude.{
  ℕ, zero, suc, ◌+◌, ◌-◌, ◌*◌, ◌%◌, ◌^◌, ◌≤◌, ◌<◌, ◌≡◌, ◌≢◌, refl, ap, sym, ◌∙◌, arith, true, ltb,
  ◌==◌, if◌then◌else◌, Bytes, byte_at, update, update_self, update_ne, pos, failure, some, lt→ltb,
  eq→==, ne→==, ℤ, to_u32, Bool-cases, inl, inr,
}
use native.Mathlib.Decide.{ℕ_discrete}
use linux_based_os.Cstring.{address_space}
use linux_based_os.Syscalls.Args.{find_blank, args_loop, sys_getargs}

-- The first blank of the command is at place `blank`, and its end at place `len`.
pub record IsCommand (input : Bytes) (blank len : ℕ) : Type 0 where
  pub blank_first : (j : ℕ) → j < blank → byte_at input j ≢ b' '
  pub is_blank : byte_at input blank ≡ b' '
  pub behind : blank < len
  pub visible : (j : ℕ) → blank < j → j < len → byte_at input j ≢ 0
  pub ends : byte_at input len ≡ 0

-- The loop ends, whatever its bound is.
args_loop-Returns :
    (fuel : ℕ) (input : Bytes) (nbytes idx in_idx : ℕ) (buf : Bytes)
    → idx < 2 ^ 32
    → 2 ^ 32 ≤ idx + fuel
    → (r : ℕ × Bytes) × (args_loop fuel input nbytes idx in_idx buf ≡ some r)
unfolding args_loop
args_loop-Returns zero input nbytes idx in_idx buf lo hi = absurd (omega arith)
args_loop-Returns (suc fuel) input nbytes idx in_idx buf lo hi =
    let bound = (nbytes + (2 ^ 32 - in_idx)) % 2 ^ 32 in
    let copied = update buf idx (byte_at input in_idx) in
    elim (Bool-cases (ltb idx bound)) [
      | inr stop ↦ ((idx, buf), rw stop refl)
      | inl go ↦ elim (Bool-cases (byte_at input in_idx == 0)) [
        | inl last ↦ ((idx, copied), rw (go, last) refl)
        | inr more ↦
            let below : idx < bound = ground (arith, go) in
            let (r, e) =
              args_loop-Returns fuel input nbytes (idx + 1) (in_idx + 1) copied
                (omega (arith, below)) (omega arith) in
            (r, rw (go, more) e)
      ]
    ]

module _ (input : Bytes) (blank len : ℕ) (v : IsCommand input blank len) where
  find_blank-eq : (fuel i : ℕ) → i ≤ blank → blank < i + fuel → find_blank fuel input i ≡ some blank
  unfolding find_blank
  find_blank-eq zero i lo hi = absurd (omega arith)
  find_blank-eq (suc fuel) i lo hi = elim (ℕ_discrete i blank) [
    | yes e ↦ let found = eq→== _ _ (ap (byte_at input) e ∙ v.is_blank) in rw found (ap some e)
    | no n ↦
        let not_yet = ne→== _ _ (v.blank_first i (omega arith)) in
        rw not_yet (find_blank-eq fuel (i + 1) (omega arith) (omega arith))
  ]

  -- What the loop leaves, from place `idx` of the buffer on.
  record IsTaken (idx : ℕ) (buf out : Bytes) : Type 0 where
    before : (j : ℕ) → j < idx → out j ≡ buf j
    taken : (j : ℕ) → idx ≤ j → j ≤ len - blank - 1 → out j ≡ byte_at input (blank + 1 + j)

  args_loop-IsTaken :
      (fuel nbytes idx : ℕ) (buf : Bytes)
      → idx ≤ len - blank - 1
      → len - blank - 1 < idx + fuel
      → 2 * len < nbytes
      → nbytes < 2 ^ 31
      → (out : Bytes) × (args_loop fuel input nbytes idx (blank + 1 + idx) buf
          ≡ some (len - blank - 1, out))
        × IsTaken idx buf out
  unfolding args_loop
  args_loop-IsTaken zero nbytes idx buf lo hi room small = absurd (omega arith)
  args_loop-IsTaken (suc fuel) nbytes idx buf lo hi room small =
      let at = blank + 1 + idx in
      let copied = update buf idx (byte_at input at) in
      let go : ltb idx ((nbytes + (2 ^ 32 - at)) % 2 ^ 32) ≡ true =
        lt→ltb _ _ (omega (arith, v.behind)) in
      elim (ℕ_discrete idx (len - blank - 1)) [
        | yes e ↦
            let last : at ≡ len = omega (arith, e, v.behind) in
            let stop = eq→== _ _ (ap (byte_at input) last ∙ v.ends) in
            (
              copied,
              rw (go, stop) (ap (λ i. some (i, copied)) e),
              record {
                before = λ j p. update_ne buf idx _ j (omega arith);
                taken = λ j p q.
                    let same : j ≡ idx = omega (arith, e) in rw same (update_self buf idx _);
              },
            )
        | no n ↦
            let more = ne→== _ _ (v.visible at (omega arith) (omega (arith, n, v.behind))) in
            let (out, e, w) =
              args_loop-IsTaken fuel nbytes (idx + 1) copied (omega (arith, n)) (omega arith) room
                small in
            let next : blank + 1 + (idx + 1) ≡ at + 1 = omega arith in
            (
              out,
              rw (go, more)
                  (ap (λ q. args_loop fuel input nbytes (idx + 1) q copied) (sym next) ∙ e),
              record {
                before = λ j p. w.before j (omega arith) ∙ update_ne buf idx _ j (omega arith);
                taken = λ j p q. elim (ℕ_discrete j idx) [
                  | yes same ↦ w.before j (omega (arith, same)) ∙ rw same (update_self buf idx _)
                  | no other ↦ w.taken j (omega (arith, other)) q
                ];
              },
            )
      ]

  getargs-Returns :
      (buf : Bytes) (nbytes : ℤ)
      → len < 2 ^ 30
      → (r : ℤ × Bytes) × (sys_getargs input buf nbytes ≡ some r)
  unfolding sys_getargs address_space
  getargs-Returns buf nbytes fits =
      let found = find_blank-eq address_space 0 (omega arith) (omega (arith, v.behind)) in
      let (r, e) =
        args_loop-Returns address_space input (to_u32 nbytes) 0 (blank + 1) buf (omega arith)
          (omega arith) in
      ((if r.0 == 0 then failure else pos 0, r.1), rw (found, e) refl)

  getargs-copies :
      (buf : Bytes) (nbytes : ℕ)
      → len < 2 ^ 30
      → 2 * len < nbytes
      → nbytes < 2 ^ 31
      → (out : Bytes) × (sys_getargs input buf (pos nbytes)
          ≡ some (if len - blank - 1 == 0 then failure else pos 0, out))
        × ((j : ℕ) → j ≤ len - blank - 1 → out j ≡ byte_at input (blank + 1 + j))
  unfolding sys_getargs address_space
  getargs-copies buf nbytes fits room small =
      let found = find_blank-eq address_space 0 (omega arith) (omega (arith, v.behind)) in
      let (out, e, w) =
        args_loop-IsTaken address_space nbytes 0 buf (omega arith) (omega arith) room small in
      let whole : nbytes % 2 ^ 32 ≡ nbytes = omega arith in
      let start : blank + 1 + 0 ≡ blank + 1 = omega arith in
      let e' = ap (λ q. args_loop address_space input nbytes 0 q buf) (sym start) ∙ e in
      (out, rw (found, whole, e') refl, λ j p. w.taken j (omega arith) p)

  -- sys_getargs_c returns for every command with a blank, of less than 2 ^ 30 characters, whatever
  -- size the buffer is said to have. Where that size is more than twice the length of the command,
  -- and below 2 ^ 31, it copies what stands behind the first blank to the buffer, with its NUL, and
  -- fails only where nothing stands behind the blank.
  pub sys_getargs_lem :
      (buf : Bytes)
      → len < 2 ^ 30
      → ((nbytes : ℤ) → (r : ℤ × Bytes) × (sys_getargs input buf nbytes ≡ some r))
        × ((nbytes : ℕ)
            → 2 * len < nbytes
            → nbytes < 2 ^ 31
            → (out : Bytes) × (sys_getargs input buf (pos nbytes)
                ≡ some (if len - blank - 1 == 0 then failure else pos 0, out))
              × ((j : ℕ) → j ≤ len - blank - 1 → out j ≡ byte_at input (blank + 1 + j)))
  sys_getargs_lem buf fits =
      (λ nbytes. getargs-Returns buf nbytes fits, λ nbytes. getargs-copies buf nbytes fits)
