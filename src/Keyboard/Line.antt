-- ===== src/Keyboard/Line.antt =====
-- The key buffer of student-distrib/key_driver.c as a line under edit.
use linux_based_os.Prelude.{
  ℕ, zero, suc, ◌+◌, ◌-◌, ◌≤◌, ◌≡◌, ◌≢◌, inl, inr, refl, ap, ap₂, sym, ◌∙◌, arith, List, [], ◌∷◌,
  Bool-cases, ltb, leb, ◌==◌, ◌||◌, Bool, true, false, if◌then◌else◌, Bytes, update, update_self,
  length,
}
use linux_based_os.Keyboard.Table.{key_array}
use linux_based_os.Keyboard.{
  Keyboard, truthy, handle_modes, handle_shift, handle_caps, handle_ctrl, key_handler, delete_key,
  mark_enter, process_to_buffer, add_to_buffer,
}
use linux_based_os.Keyboard.Modes.{IsSteady}

-- The line that the buffer holds, the last character first.
unfoldable pub keys : ℕ → Bytes → List ℕ
keys zero buf = []
keys (suc n) buf = buf n ∷ keys n buf

abbrev pub line : Keyboard → List ℕ
line k = keys k.key_buf_index k.key_buf

-- What a key does to a line: a backspace takes the last character, a control combination does
-- nothing, and every other key adds its character while there is room.
abbrev pub rest_of : List ℕ → List ℕ
rest_of [] = []
rest_of (c ∷ cs) = cs

unfoldable pub edit : Bool → ℕ → List ℕ → List ℕ
edit ctrl c cs =
    if c == 8 then rest_of cs else if ctrl then cs else if ltb (length cs) 128 then c ∷ cs else cs

-- The codes of the modifier keys, and those of released keys.
abbrev pub is_mode : ℕ → Bool
is_mode input =
    leb 0x80 input || (input == 0x36) || (input == 0x2A) || (input == 0x3A) || (input == 0x1D)

length-keys : (n : ℕ) (buf : Bytes) → length (keys n buf) ≡ n
unfolding keys
length-keys zero buf = refl
length-keys (suc n) buf = ap suc (length-keys n buf)

keys-update : (n i v : ℕ) (buf : Bytes) → n ≤ i → keys n (update buf i v) ≡ keys n buf
unfolding keys
keys-update zero i v buf h = refl
keys-update (suc n) i v buf h = ap₂ ◌∷◌ (ground arith) (keys-update n i v buf (omega arith))

keys-add : (n v : ℕ) (buf : Bytes) → keys (n + 1) (update buf n v) ≡ v ∷ keys n buf
unfolding keys
keys-add n v buf =
    let one : n + 1 ≡ suc n = omega arith in
    rw one (ap₂ ◌∷◌ (update_self buf n v) (keys-update n n v buf (omega arith)))

line-delete_key : (k : Keyboard) → line (delete_key k) ≡ rest_of (line k)
unfolding delete_key keys
line-delete_key k = go k.key_buf_index refl
  where
    go :
        (n : ℕ)
        → k.key_buf_index ≡ n
        → line (delete_key k) ≡ rest_of (keys k.key_buf_index k.key_buf)
    go zero e = rw e refl
    go (suc n) e =
        let b : ltb 0 (suc n) ≡ true = ground arith in
        let one : suc n - 1 ≡ n = omega arith in
        rw (e, b, one) (keys-update n (suc n) 0 k.key_buf (omega arith))

line-process_to_buffer :
    (k : Keyboard) (input : ℕ)
    → key_array k.dict input ≢ 8
    → line (process_to_buffer k input) ≡ edit (truthy k.ctrl_mode) (key_array k.dict input) (line k)
unfolding process_to_buffer add_to_buffer edit
line-process_to_buffer k input h =
    let plain : (key_array k.dict input == 8) ≡ false = ground arith in
    let size = length-keys k.key_buf_index k.key_buf in
    elim (Bool-cases (truthy k.ctrl_mode)) [
      | inl ctrl ↦
          elim (Bool-cases ((key_array k.dict input == b'l') || (key_array k.dict input == b'L'))) [
            | inl l ↦ rw (plain, ctrl, l) refl
            | inr other ↦ rw (plain, ctrl, other) refl
          ]
      | inr typed ↦ elim (Bool-cases (ltb k.key_buf_index 128)) [
        | inl room ↦
            rw (plain, typed, size, room)
              (keys-add k.key_buf_index (key_array k.dict input) k.key_buf)
        | inr full ↦ rw (plain, typed, size, full) refl
      ]
    ]

handle_modes_typed :
    (k : Keyboard) (input : ℕ)
    → IsSteady k
    → is_mode input ≡ false
    → handle_modes k input ≡ record k { enter_flag = 0; mode_flag = 0 }
unfolding handle_modes handle_shift handle_caps handle_ctrl
handle_modes_typed k input v h =
    let s1 : ((input == 0x36) || (input == 0x2A)) ≡ false = ground arith in
    let s2 : ((input == 0xB6) || (input == 0xAA)) ≡ false = ground arith in
    let c : (input == 0x3A) ≡ false = ground arith in
    let t1 : (input == 0x1D) ≡ false = ground arith in
    let t2 : (input == 0x9D) ≡ false = ground arith in
    rw (s1, s2, c, t1, t2)
      (ap (λ d. record k { enter_flag = 0; mode_flag = 0; dict = d }) (sym v.dict))

handle_modes_mode :
    (k : Keyboard) (input : ℕ)
    → is_mode input ≡ true
    → (leb 0x80 input || truthy (handle_modes k input).mode_flag) ≡ true
unfolding handle_modes handle_shift handle_caps handle_ctrl
handle_modes_mode k input h = ground arith

line-handle_modes : (k : Keyboard) (input : ℕ) → line (handle_modes k input) ≡ line k
unfolding handle_modes handle_shift handle_caps handle_ctrl
line-handle_modes k input = ap₂ keys (ground arith) (ground arith)

line-mark_enter : (k : Keyboard) (symbol : ℕ) → line (mark_enter k symbol) ≡ line k
unfolding mark_enter
line-mark_enter k symbol = ap₂ keys (ground arith) (ground arith)

line-typed :
    (k : Keyboard) (input : ℕ)
    → key_array k.dict input ≢ 8
    → line (process_to_buffer (mark_enter k (key_array k.dict input)) input)
      ≡ edit (truthy k.ctrl_mode) (key_array k.dict input) (line k)
unfolding mark_enter
line-typed k input h = elim (Bool-cases (key_array k.dict input == b'\n')) [
  | inl e ↦ rw e (line-process_to_buffer (record k { enter_flag = 1 }) input h)
  | inr e ↦ rw e (line-process_to_buffer k input h)
]

-- The buffer is a line under edit. A modifier key or a released key leaves it alone; every other
-- key does what `edit` says with the character that the dictionary has for it.
pub key_handler-edit :
    (k : Keyboard) (input : ℕ)
    → IsSteady k
    → (is_mode input ≡ true → line (key_handler k input) ≡ line k)
      × (is_mode input ≡ false
          → line (key_handler k input)
            ≡ edit (truthy k.ctrl_mode) (key_array k.dict input) (line k))
unfolding key_handler edit
key_handler-edit k input v = (
  λ h.
      rw (handle_modes_mode (record k { interrupts = false }) input h)
        (line-handle_modes (record k { interrupts = false }) input),
  λ h.
      let k0 = record k { interrupts = false } in
      let v0 : IsSteady k0 = record {
        caps = v.caps;
        shift = v.shift;
        dict = v.dict;
        index = v.index;
      } in
      let low : leb 0x80 input ≡ false = ground arith in
      elim (Bool-cases (key_array k.dict input == 8)) [
        | inl del ↦
            rw (handle_modes_typed k0 input v0 h, low, del)
              (line-delete_key (record k0 { enter_flag = 0; mode_flag = 0 }))
        | inr typed ↦
            rw (handle_modes_typed k0 input v0 h, low, typed)
              (line-typed (record k0 { enter_flag = 0; mode_flag = 0 }) input (ground arith)
                ∙ unfold edit in (rw typed refl))
      ],
)

-- With a full buffer a backspace writes behind it: the byte at 128 becomes 0.
pub backspace_overruns :
    (k : Keyboard) (input : ℕ)
    → IsSteady k
    → k.key_buf_index ≡ 128
    → is_mode input ≡ false
    → key_array k.dict input ≡ 8
    → (key_handler k input).key_buf 128 ≡ 0
unfolding key_handler delete_key
backspace_overruns k input v full h del =
    let k0 = record k { interrupts = false } in
    let v0 : IsSteady k0 = record {
      caps = v.caps;
      shift = v.shift;
      dict = v.dict;
      index = v.index;
    } in
    let low : leb 0x80 input ≡ false = ground arith in
    rw (handle_modes_typed k0 input v0 h, low, del, full) refl
