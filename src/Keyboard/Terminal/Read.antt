-- ===== src/Keyboard/Terminal/Read.antt =====
-- terminal_read of student-distrib/key_driver.c against the line of the key buffer.
use linux_based_os.Prelude.{
  ℕ, zero, suc, ◌+◌, ◌<◌, ◌≤◌, ◌≡◌, ◌≢◌, ◌⊎◌, inl, inr, refl, ◌∙◌, arith, List, [], ◌∷◌, ltb, leb,
  ◌&&◌, if◌then◌else◌, Bytes, update, ℤ, pos, eq→==, ne→==, some,
}
use native.Mathlib.Decide.{ℕ_discrete}
use linux_based_os.Keyboard.{Keyboard, key_handler}
use linux_based_os.Keyboard.Modes.{IsSteady, key_handler-IsSteady}
use linux_based_os.Keyboard.Line.{line, keys}
use linux_based_os.Keyboard.Terminal.{
  clear_keys, clear_key_buffer, press, wait_enter, copy_keys, finish_line, TerminalRead,
  terminal_read,
}

clear_keys_lem :
    (left i : ℕ) (buf : Bytes) (j : ℕ)
    → clear_keys left i buf j ≡ (if leb i j && ltb j (i + left) then 0 else buf j)
unfolding clear_keys
clear_keys_lem zero i buf j = ground arith
clear_keys_lem (suc left) i buf j = clear_keys_lem left (i + 1) (update buf i 0) j ∙ ground arith

copy_keys_lem :
    (left i : ℕ) (key_buf buffer : Bytes) (j : ℕ)
    → copy_keys left i key_buf buffer j
      ≡ (if leb i j && ltb j (i + left) then key_buf j else buffer j)
unfolding copy_keys
copy_keys_lem zero i key_buf buffer j = ground arith
copy_keys_lem (suc left) i key_buf buffer j =
    copy_keys_lem left (i + 1) key_buf (update buffer i (key_buf i)) j ∙ ground arith

press-IsSteady : (k : Keyboard) (inputs : List ℕ) → IsSteady k → IsSteady (press k inputs)
unfolding press
press-IsSteady k [] v = v
press-IsSteady k (input ∷ inputs) v =
    press-IsSteady (key_handler k input) inputs (key_handler-IsSteady k input v)

clear_key_buffer-IsSteady : (k : Keyboard) → IsSteady k → IsSteady (clear_key_buffer k)
unfolding clear_key_buffer
clear_key_buffer-IsSteady k v = record {
  caps = v.caps;
  shift = v.shift;
  dict = v.dict;
  index = omega arith;
}

-- Some number of whole batches leads from `k` to `k'`.
unfoldable pub After : Keyboard → List (List ℕ) → Keyboard → Type 0
After k [] k' = k' ≡ k
After k (batch ∷ batches) k' = (k' ≡ k) ⊎ After (press k batch) batches k'

-- The flag is set after one of the batches, or before them.
unfoldable pub Enters : Keyboard → List (List ℕ) → Type 0
Enters k [] = k.enter_flag ≡ 1
Enters k (batch ∷ batches) = (k.enter_flag ≡ 1) ⊎ Enters (press k batch) batches

right_of : {P : Type 0} {n : ℕ} → (n ≡ 1) ⊎ P → n ≢ 1 → P
right_of (inl e) n = absurd (n e)
right_of (inr p) n = p

wait_enter_lem :
    (k : Keyboard) (batches : List (List ℕ))
    → IsSteady k
    → Enters k batches
    → (k' : Keyboard) × (wait_enter k batches ≡ some k')
      × (k'.enter_flag ≡ 1)
      × IsSteady k'
      × After k batches k'
unfolding wait_enter After Enters
wait_enter_lem k [] v h = (k, rw (eq→== k.enter_flag 1 h) refl, h, v, refl)
wait_enter_lem k (batch ∷ batches) v h = elim (ℕ_discrete k.enter_flag 1) [
  | yes e ↦ (k, rw (eq→== k.enter_flag 1 e) refl, e, v, inl refl)
  | no n ↦
      let later : Enters (press k batch) batches = right_of h n in
      let (k', e, f, w, a) =
        wait_enter_lem (press k batch) batches (press-IsSteady k batch v) later in
      (k', rw (ne→== k.enter_flag 1 n) e, f, w, inr a)
]

-- What a read of a line leaves, where `k` is the keyboard at the moment of the enter key.
pub record IsLineRead (k : Keyboard) (buffer : Bytes) (out : TerminalRead) : Type 0 where
  pub ret : out.ret ≡ pos k.key_buf_index
  pub bytes : (j : ℕ) → j < k.key_buf_index → out.buffer j ≡ k.key_buf j
  pub beyond : (j : ℕ) → k.key_buf_index ≤ j → out.buffer j ≡ buffer j
  pub emptied : line out.keyboard ≡ []
  pub flag : out.keyboard.enter_flag ≡ 0

finish_line-IsLineRead :
    (k : Keyboard) (buffer : Bytes)
    → k.key_buf_index ≤ 128
    → IsLineRead k buffer (finish_line buffer k)
unfolding clear_key_buffer keys
finish_line-IsLineRead k buffer h = record {
  ret = ground arith;
  bytes = λ j p. copy_keys_lem k.key_buf_index 0 k.key_buf buffer j ∙ ground arith;
  beyond = λ j p. copy_keys_lem k.key_buf_index 0 k.key_buf buffer j ∙ ground arith;
  emptied = refl;
  flag = refl;
}

-- terminal_read from stdin returns once the enter key has set the flag. It returns the number of
-- characters in the key buffer then, which is at most 128 whatever `nbytes` is, and puts exactly
-- them into the caller's buffer; it leaves the key buffer empty and the flag clear.
pub terminal_read-IsLineRead :
    (k : Keyboard) (buffer : Bytes) (nbytes : ℤ) (batches : List (List ℕ))
    → IsSteady k
    → Enters (clear_key_buffer k) batches
    → (k' : Keyboard) × (out : TerminalRead) × (terminal_read k (pos 0) buffer nbytes batches
        ≡ some out)
      × After (clear_key_buffer k) batches k'
      × (k'.enter_flag ≡ 1)
      × (k'.key_buf_index ≤ 128)
      × IsLineRead k' buffer out
unfolding terminal_read
terminal_read-IsLineRead k buffer nbytes batches v h =
    let (k', e, f, w, a) =
      wait_enter_lem (clear_key_buffer k) batches (clear_key_buffer-IsSteady k v) h in
    (k', finish_line buffer k', rw e refl, a, f, w.index, finish_line-IsLineRead k' buffer w.index)

clear_key_buffer-flag : (k : Keyboard) → (clear_key_buffer k).enter_flag ≡ k.enter_flag
unfolding clear_key_buffer
clear_key_buffer-flag k = refl

wait_enter-now :
    (k : Keyboard) (batches : List (List ℕ)) → k.enter_flag ≡ 1 → wait_enter k batches ≡ some k
unfolding wait_enter
wait_enter-now k [] h = rw (eq→== k.enter_flag 1 h) refl
wait_enter-now k (batch ∷ batches) h = rw (eq→== k.enter_flag 1 h) refl

-- Where the flag is still set from an earlier enter key, terminal_read does not wait: it returns
-- 0 at once, whatever is typed afterwards.
pub terminal_read_stale :
    (k : Keyboard) (buffer : Bytes) (nbytes : ℤ) (batches : List (List ℕ))
    → k.enter_flag ≡ 1
    → (out : TerminalRead) × (terminal_read k (pos 0) buffer nbytes batches ≡ some out)
      × (out.ret ≡ pos 0)
      × (out.buffer ≡ buffer)
unfolding terminal_read clear_key_buffer copy_keys
terminal_read_stale k buffer nbytes batches h = (
  finish_line buffer (clear_key_buffer k),
  rw (wait_enter-now (clear_key_buffer k) batches h) refl,
  refl,
  refl,
)
