-- ===== src/Keyboard/Terminal.antt =====
-- The terminal operations of student-distrib/key_driver.c. A read waits for interrupts: the bytes
-- that the keyboard sends between two tests of the flag are one batch of a list.
pub mod Read
use linux_based_os.Prelude.{
  ℕ, zero, suc, ◌+◌, ◌-◌, ◌%◌, ◌^◌, Bool, true, false, not, ◌||◌, ltb, ◌==◌, if◌then◌else◌, Bytes,
  byte_at, update, ℤ, pos, negsuc, failure, to_i32, is_neg, exceeds, List, [], ◌∷◌, Option, none,
  some, set,
}
use linux_based_os.Pcb.{FileArray, FileDesc, desc, index}
use linux_based_os.Screen.{Screen, putc_terminal}
use linux_based_os.Keyboard.{Keyboard, key_handler, keyboard_environment}

unfoldable pub clear_keys : ℕ → ℕ → Bytes → Bytes
clear_keys zero i buf = buf
clear_keys (suc left) i buf = clear_keys left (i + 1) (update buf i 0)

unfoldable pub clear_key_buffer : Keyboard → Keyboard
clear_key_buffer k = record k { key_buf = clear_keys 128 0 k.key_buf; key_buf_index = 0 }

-- The file name is not looked at.
unfoldable pub terminal_open : Keyboard → Bytes → ℤ × Keyboard
terminal_open k filename = (pos 0, keyboard_environment k)

unfoldable pub terminal_close : FileArray → ℤ → ℤ × FileArray
terminal_close files fd =
    if is_neg fd || exceeds fd 1
    then (failure, files)
    else if (desc files (index fd)).flags % 2 == 0
    then (failure, files)
    else (pos 0, set files (index fd) (record (desc files (index fd)) { flags = 0 }))

-- The keyboard sends one batch of bytes.
unfoldable pub press : Keyboard → List ℕ → Keyboard
press k [] = k
press k (input ∷ inputs) = press (key_handler k input) inputs

-- The loop that waits for the flag; `none` where it is not set within the given batches.
unfoldable pub wait_enter : Keyboard → List (List ℕ) → Option Keyboard
wait_enter k [] = if k.enter_flag == 1 then some k else none
wait_enter k (batch ∷ batches) =
    let rest = wait_enter (press k batch) batches in if k.enter_flag == 1 then some k else rest

unfoldable pub copy_keys : ℕ → ℕ → Bytes → Bytes → Bytes
copy_keys zero i key_buf buffer = buffer
copy_keys (suc left) i key_buf buffer = copy_keys left (i + 1) key_buf (update buffer i (key_buf i))

-- What terminal_read leaves.
pub record TerminalRead : Type 0 where
  pub ret : ℤ
  pub buffer : Bytes
  pub keyboard : Keyboard

abbrev pub finish_line : Bytes → Keyboard → TerminalRead
finish_line buffer k = record {
  ret = to_i32 k.key_buf_index;
  buffer = copy_keys k.key_buf_index 0 k.key_buf buffer;
  keyboard = clear_key_buffer (record k { enter_flag = 0 });
}

abbrev pub map_line : Bytes → Option Keyboard → Option TerminalRead
map_line buffer none = none
map_line buffer (some k) = some (finish_line buffer k)

-- `nbytes` is not looked at.
unfoldable pub terminal_read : Keyboard → ℤ → Bytes → ℤ → List (List ℕ) → Option TerminalRead
terminal_read k (pos zero) buffer nbytes batches =
    map_line buffer (wait_enter (clear_key_buffer k) batches)
terminal_read k fd buffer nbytes batches =
    some (record { ret = failure; buffer = buffer; keyboard = k })

unfoldable pub write_loop : ℕ → ℕ → Bytes → Screen → Screen
write_loop zero index inbuf s = s
write_loop (suc left) index inbuf s =
    write_loop left (index + 1) inbuf (putc_terminal s (byte_at inbuf index))

-- Interrupts are off during the loop and on after it.
unfoldable pub terminal_write : Keyboard → ℤ → Bytes → ℤ → ℤ × Keyboard
terminal_write k (pos (suc zero)) inbuf (pos nbytes) =
    (pos nbytes, record k { screen = write_loop nbytes 0 inbuf k.screen; interrupts = true })
terminal_write k (pos (suc zero)) inbuf (negsuc nbytes) = (pos 0, record k { interrupts = true })
terminal_write k fd inbuf nbytes = (failure, k)
