-- ===== src/Screen/Print.antt =====
-- puts and printf of student-distrib/lib.c. Strings and formats are taken not to overlap the
-- screen's memory. `none` is a call that never returns.
pub mod Strings
use linux_based_os.Prelude.{
  bind, ℕ, zero, suc, ◌+◌, ◌-◌, ◌*◌, ◌%◌, ◌^◌, Bool, true, false, ltb, leb, ◌==◌, if◌then◌else◌,
  Bytes, byte_at, update, shift, Option, none, some,
}
use linux_based_os.Cstring.{address_space, strlen, itoa}
use linux_based_os.Screen.{Screen, putc}

unfoldable pub puts_loop : ℕ → Screen → Bytes → ℕ → Option (ℕ × Screen)
puts_loop zero s str index = none
puts_loop (suc fuel) s str index =
    let rest = puts_loop fuel (putc s (byte_at str index)) str (index + 1) in
    if byte_at str index == 0 then some (index, s) else rest

unfoldable pub puts : Screen → Bytes → Option (ℕ × Screen)
puts s str = puts_loop address_space s str 0

-- The words behind the format on the stack, and what the pointers among them lead to.
pub record Arguments : Type 0 where
  pub words : ℕ → ℕ
  pub strings : ℕ → Bytes

-- The loop of %#x that pads with zeros from place `i` to place 8.
unfoldable pub pad : ℕ → ℕ → Bytes → Bytes
pad zero i conv_buf = conv_buf
pad (suc left) i conv_buf = pad left (i + 1) (update conv_buf i b'0')

-- The string of %#x: the digits stand from place 8 on, the zeros before them.
unfoldable pub alternate_hex : ℕ → Bytes → Option Bytes
alternate_hex value conv_buf = bind (itoa value (shift conv_buf 8) 16) λ digits.
    bind (strlen digits) λ starting_index.
      let padded = pad (8 - starting_index) starting_index conv_buf in
      some (shift (λ i. if ltb i 8 then padded i else digits (i - 8)) starting_index)

-- The string of %d.
unfoldable pub signed_decimal : ℕ → Bytes → Option Bytes
signed_decimal value conv_buf =
    if leb (2 ^ 31) value
    then bind (itoa (2 ^ 32 - value) (shift conv_buf 1) 10)
        (λ digits. some (λ i. if i == 0 then b'-' else digits (i - 1)))
    else itoa value conv_buf 10

-- Where printf stands: the screen, the place in the format and the next word.
pub record Printing : Type 0 where
  pub screen : Screen
  pub buf : ℕ
  pub esp : ℕ

-- puts of a converted string, and the step over its word.
unfoldable pub put_word : Printing → Option Bytes → Option Printing
put_word p none = none
put_word p (some str) =
    bind (puts p.screen str) λ r. some (record p { screen = r.1; esp = p.esp + 1 })

-- The switch over the conversion specifiers. `junk` is what the buffers on the stack hold.
unfoldable pub convert : Arguments → Bytes → Bool → ℕ → Printing → Option Printing
convert args junk alternate c p =
    if c == b'%'
    then some (record p { screen = putc p.screen b'%' })
    else if c == b'x'
    then put_word p (
        if alternate
        then alternate_hex (args.words p.esp) junk
        else itoa (args.words p.esp) junk 16)
    else if c == b'u'
    then put_word p (itoa (args.words p.esp) junk 10)
    else if c == b'd'
    then put_word p (signed_decimal (args.words p.esp) junk)
    else if c == b'c'
    then some (record p { screen = putc p.screen (args.words p.esp % 2 ^ 8); esp = p.esp + 1 })
    else if c == b's'
    then put_word p (some (args.strings (args.words p.esp)))
    else some p

-- The label format_char_switch: any number of `#`, then the switch.
unfoldable pub format_char : ℕ → Arguments → Bytes → Bytes → Bool → Printing → Option Printing
format_char zero args junk format alternate p = none
format_char (suc fuel) args junk format alternate p =
    let rest = format_char fuel args junk format true (record p { buf = p.buf + 1 }) in
    if byte_at format p.buf == b'#'
    then rest
    else convert args junk alternate (byte_at format p.buf) p

unfoldable pub printf_round : Arguments → Bytes → Bytes → Printing → Option Printing
printf_round args junk format p =
    if byte_at format p.buf == b'%'
    then format_char address_space args junk format false (record p { buf = p.buf + 1 })
    else some (record p { screen = putc p.screen (byte_at format p.buf) })

unfoldable pub printf_loop : ℕ → Arguments → Bytes → Bytes → Printing → Option (ℕ × Screen)
printf_loop zero args junk format p = none
printf_loop (suc fuel) args junk format p =
    if byte_at format p.buf == 0
    then some (p.buf, p.screen)
    else elim (printf_round args junk format p) [
      | none ↦ none
      | some q ↦ printf_loop fuel args junk format (record q { buf = q.buf + 1 })
    ]

unfoldable pub printf : Screen → Bytes → Arguments → Bytes → Option (ℕ × Screen)
printf s format args junk =
    printf_loop address_space args junk format (record { screen = s; buf = 0; esp = 0 })
