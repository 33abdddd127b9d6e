-- ===== src/Keyboard/Tests.antt =====
-- The theorems on the keyboard driver, student-distrib/key_driver.c, at concrete states.
use linux_based_os.Prelude.{
  ℕ, ◌≤◌, ◌≡◌, inl, inr, refl, arith, true, false, List, [], ◌∷◌, pos, some,
}
use linux_based_os.Keyboard.Table.{key_array}
use linux_based_os.Keyboard.{
  Keyboard, key_handler, dict_of, handle_modes, handle_shift, handle_caps, handle_ctrl, mark_enter,
  process_to_buffer, add_to_buffer,
}
use linux_based_os.Keyboard.Modes.{IsSteady, key_handler-IsSteady}
use linux_based_os.Keyboard.Line.{line, edit, is_mode, key_handler-edit, backspace_overruns}
use linux_based_os.Keyboard.Terminal.{clear_key_buffer, TerminalRead, terminal_read, press}
use linux_based_os.Keyboard.Terminal.Read.{
  After, Enters, IsLineRead, terminal_read-IsLineRead, terminal_read_stale,
}

-- A driver at rest, with the given number of characters in the buffer.
abbrev holding : ℕ → Keyboard
holding n = record {
  screen = record { screen_x = 0; screen_y = 0; mem = λ a. 0; outs = [] };
  pic = record { master_mask = 0xFF; slave_mask = 0xFF; outs = [] };
  interrupts = true;
  key_buf = λ j. b'x';
  key_buf_index = n;
  enter_flag = 0;
  dict = 0;
  ctrl_mode = 0;
  caps_mode = 0;
  shift_mode = 0;
  mode_flag = 0;
}

holding-IsSteady : (n : ℕ) → n ≤ 128 → IsSteady (holding n)
unfolding dict_of
holding-IsSteady n h = record { caps = inl refl; shift = inl refl; dict = refl; index = h }

key_handler-IsSteady_example : IsSteady (key_handler (holding 3) 0x1E)
key_handler-IsSteady_example =
    key_handler-IsSteady (holding 3) 0x1E (holding-IsSteady 3 (omega arith))

key_handler-edit_example :
    (is_mode 0x1E ≡ true → line (key_handler (holding 2) 0x1E) ≡ line (holding 2))
    × (is_mode 0x1E ≡ false
        → line (key_handler (holding 2) 0x1E) ≡ edit false (key_array 0 0x1E) (line (holding 2)))
key_handler-edit_example = key_handler-edit (holding 2) 0x1E (holding-IsSteady 2 (omega arith))

backspace_overruns_example : (key_handler (holding 128) 0x0E).key_buf 128 ≡ 0
unfolding key_array
backspace_overruns_example =
    backspace_overruns (holding 128) 0x0E (holding-IsSteady 128 (omega arith)) refl refl refl

-- The enter key follows a letter.
abbrev typing : List (List ℕ)
typing = (0x1E ∷ 0x9E ∷ []) ∷ (0x1C ∷ []) ∷ []

enters : Enters (clear_key_buffer (holding 5)) typing
unfolding Enters press key_handler clear_key_buffer handle_modes handle_shift handle_caps
    handle_ctrl dict_of mark_enter process_to_buffer add_to_buffer key_array
enters = inr (inr refl)

terminal_read-IsLineRead_example :
    (k' : Keyboard) × (out : TerminalRead) × (terminal_read
        (holding 5)
        (pos 0)
        (λ j. 0)
        (pos 32)
        typing
      ≡ some out)
    × After (clear_key_buffer (holding 5)) typing k'
    × (k'.enter_flag ≡ 1)
    × (k'.key_buf_index ≤ 128)
    × IsLineRead k' (λ j. 0) out
terminal_read-IsLineRead_example =
    terminal_read-IsLineRead (holding 5) (λ j. 0) (pos 32) typing (holding-IsSteady 5 (omega arith))
      enters

abbrev after_enter : Keyboard
after_enter = record (holding 5) { enter_flag = 1 }

terminal_read_stale_example :
    (out : TerminalRead) × (terminal_read after_enter (pos 0) (λ j. 0) (pos 32) typing ≡ some out)
    × (out.ret ≡ pos 0)
    × (out.buffer ≡ (λ j. 0))
terminal_read_stale_example = terminal_read_stale after_enter (λ j. 0) (pos 32) typing refl
