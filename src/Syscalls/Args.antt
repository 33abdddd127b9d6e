-- ===== src/Syscalls/Args.antt =====
-- sys_getargs_c, sys_vidmap_c, sys_set_handler_c and sys_sigreturn_c of
-- student-distrib/sys_calls.c.
use linux_based_os.Prelude.{
  ℕ, zero, suc, ◌+◌, ◌-◌, ◌*◌, ◌/◌, ◌%◌, ◌^◌, ltb, leb, ◌==◌, if◌then◌else◌, Bytes, byte_at, update,
  ℤ, pos, failure, to_u32, Option, none, some, bit_or,
}
use linux_based_os.Cstring.{address_space}
use linux_based_os.Paging.{Paging, get_page_table_entry, user_vmem, vid_addr}

-- The search for the blank behind the name of the program.
unfoldable pub find_blank : ℕ → Bytes → ℕ → Option ℕ
find_blank zero input in_idx = none
find_blank (suc fuel) input in_idx =
    let rest = find_blank fuel input (in_idx + 1) in
    if byte_at input in_idx == b' ' then some in_idx else rest

-- The loop that copies the arguments: the last place and the buffer. The bound `nbytes - in_idx`
-- is on 32 bits, and `in_idx` moves on with `idx`.
unfoldable pub args_loop : ℕ → Bytes → ℕ → ℕ → ℕ → Bytes → Option (ℕ × Bytes)
args_loop zero input nbytes idx in_idx buf = none
args_loop (suc fuel) input nbytes idx in_idx buf =
    let copied = update buf idx (byte_at input in_idx) in
    let rest = args_loop fuel input nbytes (idx + 1) (in_idx + 1) copied in
    if ltb idx ((nbytes + (2 ^ 32 - in_idx)) % 2 ^ 32)
    then if byte_at input in_idx == 0 then some (idx, copied) else rest
    else some (idx, buf)

abbrev pub args_done : Bytes → Option (ℕ × Bytes) → Option (ℤ × Bytes)
args_done buf none = none
args_done buf (some r) = some (if r.0 == 0 then failure else pos 0, r.1)

abbrev pub from_blank : (ℕ → Option (ℤ × Bytes)) → Option ℕ → Option (ℤ × Bytes)
from_blank f none = none
from_blank f (some i) = f i

-- `input` is the memory from the array of the current process on.
unfoldable pub sys_getargs : Bytes → Bytes → ℤ → Option (ℤ × Bytes)
sys_getargs input buf nbytes =
    from_blank (λ i. args_done buf (args_loop address_space input (to_u32 nbytes) 0 (i + 1) buf))
      (find_blank address_space input 0)

-- The pointer is its address, 0 for a null pointer; the result is what is stored through it.
unfoldable pub sys_vidmap : ℕ → ℕ → (ℕ → ℕ → ℕ) → Paging → ℕ → ℤ × Option ℕ
sys_vidmap table_0 table_1 elsewhere p screen_start =
    if leb screen_start 0x00400000
    then (failure, none)
    else elim (get_page_table_entry table_0 table_1 elsewhere p user_vmem (vid_addr / 2 ^ 12)) [
      | none ↦ (failure, none)
      | some entry ↦ (pos 0, some (bit_or (user_vmem * 2 ^ 22 % 2 ^ 32) vid_addr))
    ]

unfoldable pub sys_set_handler : ℤ → ℕ → ℤ
sys_set_handler signum handler_address = failure

unfoldable pub sys_sigreturn : ℤ
sys_sigreturn = failure
