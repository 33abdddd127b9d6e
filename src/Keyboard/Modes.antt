-- ===== src/Keyboard/Modes.antt =====
-- The invariant of the keyboard driver, student-distrib/key_driver.c.
use linux_based_os.Prelude.{
  ℕ, ◌-◌, ◌^◌, ◌≤◌, ◌≡◌, ◌⊎◌, inl, inr, refl, arith, Bool-cases, leb, ◌==◌, ◌||◌, false,
  if◌then◌else◌,
}
use linux_based_os.Keyboard.Table.{key_array}
use linux_based_os.Keyboard.{
  Keyboard, truthy, dict_of, handle_modes, handle_shift, handle_caps, handle_ctrl, key_handler,
  delete_key, mark_enter, process_to_buffer, add_to_buffer, end_interrupt,
}

-- The modes are 0 or not, the dictionary is that of the modes, and the buffer holds no more than
-- its size.
pub record IsSteady (k : Keyboard) : Type 0 where
  pub caps : (k.caps_mode ≡ 0) ⊎ (k.caps_mode ≡ 2 ^ 32 - 1)
  pub shift : (k.shift_mode ≡ 0) ⊎ (k.shift_mode ≡ 1)
  pub dict : k.dict ≡ dict_of k.shift_mode k.caps_mode
  pub index : k.key_buf_index ≤ 128

-- The dictionary is the one that the two modes mean: shift and caps lock together cancel out.
pub dict_of_lem :
    (shift caps : ℕ)
    → (caps ≡ 0) ⊎ (caps ≡ 2 ^ 32 - 1)
    → (shift ≡ 0) ⊎ (shift ≡ 1)
    → dict_of shift caps
      ≡ (if shift == 0 then if caps == 0 then 0 else 2 else if caps == 0 then 1 else 0)
unfolding dict_of
dict_of_lem shift caps (inl c) (inl s) = rw (c, s) refl
dict_of_lem shift caps (inl c) (inr s) = rw (c, s) refl
dict_of_lem shift caps (inr c) (inl s) = rw (c, s) refl
dict_of_lem shift caps (inr c) (inr s) = rw (c, s) refl

pub handle_modes-IsSteady :
    (k : Keyboard) (input : ℕ) → IsSteady k → IsSteady (handle_modes k input)
unfolding handle_modes handle_shift handle_caps handle_ctrl
handle_modes-IsSteady k input v = record {
  caps = ground (arith, v.caps);
  shift = ground (arith, v.shift);
  dict = refl;
  index = ground (arith, v.index);
}

-- A handler's steps after the modes keep them.
record SameModes (k k' : Keyboard) : Type 0 where
  caps : k'.caps_mode ≡ k.caps_mode
  shift : k'.shift_mode ≡ k.shift_mode
  dict : k'.dict ≡ k.dict
  index : k'.key_buf_index ≤ 128

after-IsSteady : (k k' : Keyboard) → IsSteady k → SameModes k k' → IsSteady k'
after-IsSteady k k' v r = record {
  caps = rw r.caps v.caps;
  shift = rw r.shift v.shift;
  dict = rw (r.caps, r.shift, r.dict) v.dict;
  index = r.index;
}

delete_key-SameModes : (k : Keyboard) → k.key_buf_index ≤ 128 → SameModes k (delete_key k)
unfolding delete_key
delete_key-SameModes k h = record {
  caps = ground arith;
  shift = ground arith;
  dict = ground arith;
  index = ground arith;
}

process-SameModes :
    (k : Keyboard) (input : ℕ) → k.key_buf_index ≤ 128 → SameModes k (process_to_buffer k input)
unfolding process_to_buffer add_to_buffer
process-SameModes k input h = record {
  caps = ground arith;
  shift = ground arith;
  dict = ground arith;
  index = ground arith;
}

mark_enter-SameModes :
    (k : Keyboard) (symbol : ℕ) → k.key_buf_index ≤ 128 → SameModes k (mark_enter k symbol)
unfolding mark_enter
mark_enter-SameModes k symbol h = record {
  caps = ground arith;
  shift = ground arith;
  dict = ground arith;
  index = ground arith;
}

end_interrupt-IsSteady : (k : Keyboard) → IsSteady k → IsSteady (end_interrupt k)
end_interrupt-IsSteady k v = record {
  caps = v.caps;
  shift = v.shift;
  dict = v.dict;
  index = v.index;
}

-- key_handler keeps the invariant for every byte that the keyboard sends.
pub key_handler-IsSteady : (k : Keyboard) (input : ℕ) → IsSteady k → IsSteady (key_handler k input)
unfolding key_handler
key_handler-IsSteady k input v =
    let k0 = record k { interrupts = false } in
    let m = handle_modes k0 input in
    let vm =
      handle_modes-IsSteady k0 input
        (record { caps = v.caps; shift = v.shift; dict = v.dict; index = v.index }) in
    let symbol = key_array k.dict input in
    let e = mark_enter m symbol in
    let ve = after-IsSteady m e vm (mark_enter-SameModes m symbol vm.index) in
    elim (Bool-cases (leb 0x80 input || truthy m.mode_flag)) [
      | inl mode ↦ rw mode (end_interrupt-IsSteady _ (end_interrupt-IsSteady m vm))
      | inr key ↦ elim (Bool-cases (symbol == 8)) [
        | inl del ↦
            rw (key, del)
              (end_interrupt-IsSteady _ (after-IsSteady m _ vm (delete_key-SameModes m vm.index)))
        | inr typed ↦
            rw (key, typed)
              (end_interrupt-IsSteady _
                (after-IsSteady e _ ve (process-SameModes e input ve.index)))
      ]
    ]
