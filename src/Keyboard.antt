-- ===== src/Keyboard.antt =====
-- The keyboard and terminal driver, student-distrib/key_driver.c.
pub mod Table
pub mod Terminal
pub mod Modes
pub mod Line
mod Tests
use linux_based_os.Prelude.{
  ℕ, zero, suc, ◌+◌, ◌-◌, ◌%◌, ◌^◌, Bool, true, false, not, ◌&&◌, ◌||◌, ltb, leb, ◌==◌,
  if◌then◌else◌, Bytes, update,
}
use linux_based_os.Screen.{Screen, clear, set_screen, putc_terminal, deletec_terminal}
use linux_based_os.Pic.{Pic, enable_irq, send_eoi}
use linux_based_os.Keyboard.Table.{key_array}

-- The globals of the driver, with the screen, the interrupt controllers and the interrupt flag
-- that it changes. The modes are `int`s as words.
pub record Keyboard : Type 0 where
  pub screen : Screen
  pub pic : Pic
  pub interrupts : Bool
  pub key_buf : Bytes
  pub key_buf_index : ℕ
  pub enter_flag : ℕ
  pub dict : ℕ
  pub ctrl_mode : ℕ
  pub caps_mode : ℕ
  pub shift_mode : ℕ
  pub mode_flag : ℕ

abbrev pub key_buf_size : ℕ
key_buf_size = 128

-- A C condition, and `~` on an `int`.
abbrev pub truthy : ℕ → Bool
truthy w = not (w == 0)

abbrev pub complement : ℕ → ℕ
complement w = 2 ^ 32 - 1 - w

unfoldable pub keyboard_environment : Keyboard → Keyboard
keyboard_environment k = record k {
  pic = enable_irq k.pic 1;
  dict = 0;
  caps_mode = 0;
  shift_mode = 0;
  ctrl_mode = 0;
}

unfoldable pub add_to_buffer : Keyboard → ℕ → Keyboard
add_to_buffer k symbol =
    if ltb k.key_buf_index key_buf_size
    then record k {
      key_buf = update k.key_buf k.key_buf_index symbol;
      key_buf_index = k.key_buf_index + 1;
    }
    else k

unfoldable pub process_to_buffer : Keyboard → ℕ → Keyboard
process_to_buffer k input =
    let symbol = key_array k.dict input in
    if truthy k.ctrl_mode
    then if (symbol == b'l') || (symbol == b'L')
      then record k { screen = set_screen (clear k.screen) 0 0 }
      else k
    else if ltb k.key_buf_index key_buf_size
    then add_to_buffer (record k { screen = putc_terminal k.screen symbol }) symbol
    else k

unfoldable pub handle_shift : Keyboard → ℕ → Keyboard
handle_shift k input =
    if (input == 0x36) || (input == 0x2A)
    then record k { shift_mode = 1; mode_flag = 1 }
    else if (input == 0xB6) || (input == 0xAA)
    then record k { shift_mode = 0; mode_flag = 1 }
    else k

unfoldable pub handle_caps : Keyboard → ℕ → Keyboard
handle_caps k input =
    if input == 0x3A then record k { caps_mode = complement k.caps_mode; mode_flag = 1 } else k

unfoldable pub handle_ctrl : Keyboard → ℕ → Keyboard
handle_ctrl k input =
    if input == 0x1D
    then record k { ctrl_mode = 1; mode_flag = 1 }
    else if input == 0x9D
    then record k { ctrl_mode = 0; mode_flag = 1 }
    else k

-- The dictionary for the modes.
unfoldable pub dict_of : ℕ → ℕ → ℕ
dict_of shift_mode caps_mode =
    if truthy shift_mode && truthy caps_mode
    then 0
    else if truthy shift_mode && truthy (complement caps_mode)
    then 1
    else if truthy (complement shift_mode) && truthy caps_mode
    then 2
    else 0

-- The part of key_handler up to the choice of the dictionary.
unfoldable pub handle_modes : Keyboard → ℕ → Keyboard
handle_modes k input =
    let flags = record k { enter_flag = 0; mode_flag = 0 } in
    let moded = handle_ctrl (handle_caps (handle_shift flags input) input) input in
    record moded { dict = dict_of moded.shift_mode moded.caps_mode }

abbrev pub end_interrupt : Keyboard → Keyboard
end_interrupt k = record k { pic = send_eoi k.pic 1; interrupts = true }

unfoldable pub delete_key : Keyboard → Keyboard
delete_key k =
    if ltb 0 k.key_buf_index
    then record k {
      screen = deletec_terminal k.screen (k.key_buf (k.key_buf_index - 1));
      key_buf = update k.key_buf k.key_buf_index 0;
      key_buf_index = k.key_buf_index - 1;
    }
    else k

unfoldable pub mark_enter : Keyboard → ℕ → Keyboard
mark_enter k symbol = if symbol == b'\n' then record k { enter_flag = 1 } else k

-- `input` is the byte that inb reads from the keyboard's port; `symbol` is looked up before the
-- modes change.
unfoldable pub key_handler : Keyboard → ℕ → Keyboard
key_handler k input =
    let symbol = key_array k.dict input in
    let moded = handle_modes (record k { interrupts = false }) input in
    end_interrupt (
      if leb 0x80 input || truthy moded.mode_flag
      then end_interrupt moded
      else if symbol == 8
      then delete_key moded
      else process_to_buffer (mark_enter moded symbol) input)
