-- ===== src/Keyboard/Table.antt =====
-- The scan code table key_array of student-distrib/key_driver.c.
use Prim.Native.String.{String}
use linux_based_os.Prelude.{ℕ, ◌+◌, ◌*◌, List, [], ◌∷◌, ◌++◌, get_elem?, replicate}
use linux_based_os.Cstring.{codes, or_zero}

-- One dictionary: the four rows of the keyboard, with escape, backspace, tab, enter, control, the
-- shift keys, the backslash, alt and caps lock at their codes; the keypad has - and +.
abbrev dictionary : String → String → String → String → List ℕ
dictionary digits top home bottom =
    (0 ∷ 27 ∷ [])
    ++ codes digits
    ++ (8 ∷ 9 ∷ [])
    ++ codes top
    ++ (10 ∷ 0 ∷ [])
    ++ codes home
    ++ (0 ∷ 92 ∷ [])
    ++ codes bottom
    ++ (0 ∷ 42 ∷ 0 ∷ 32 ∷ [])
    ++ replicate 16 0
    ++ (45 ∷ 0 ∷ 0 ∷ 0 ∷ 43 ∷ [])
    ++ replicate 49 0

-- The three dictionaries stand one behind the other: without shift, with shift, with caps lock.
abbrev table : List ℕ
table =
    dictionary "1234567890-=" "qwertyuiop[]" "asdfghjkl;'`" "zxcvbnm,./"
    ++ dictionary "!@#$%^&*()_+" "QWERTYUIOP{}" "ASDFGHJKL:'~" "ZXCVBNM<>?"
    ++ dictionary "1234567890-=" "QWERTYUIOP[]" "ASDFGHJKL;'`" "ZXCVBNM,./"

-- key_array[dict][input]; a code from 128 on lies in the next dictionary, or behind the table,
-- where nothing is known and nothing is used.
unfoldable pub key_array : ℕ → ℕ → ℕ
key_array dict input = or_zero (get_elem? table (dict * 128 + input))
