-- ===== src/Idt.antt =====
-- The interrupt descriptor table, as student-distrib/kernel.c fills it. The addresses of the
-- assembly routines are arguments.
pub mod Fill
mod Tests
use linux_based_os.Prelude.{
  ℕ, zero, suc, ◌+◌, ◌*◌, ◌/◌, ◌%◌, ◌^◌, Bool, not, ltb, ◌==◌, ◌&&◌, if◌then◌else◌, bit_and, List,
  [], ◌∷◌, get_elem?, Option, none, some,
}
use linux_based_os.Cstring.{or_zero}

-- The bit fields of `idt_desc_t`.
pub record IdtDesc : Type 0 where
  pub offset_15_00 : ℕ
  pub seg_selector : ℕ
  pub reserved4 : ℕ
  pub reserved3 : ℕ
  pub reserved2 : ℕ
  pub reserved1 : ℕ
  pub size : ℕ
  pub reserved0 : ℕ
  pub dpl : ℕ
  pub present : ℕ
  pub offset_31_16 : ℕ

abbrev pub Idt : Type 0
Idt = ℕ → IdtDesc

abbrev pub sys_call_num : ℕ
sys_call_num = 0x80

abbrev pub task_gate : ℕ
task_gate = 0x05

abbrev pub int_gate : ℕ
int_gate = 0x0E

abbrev pub trap_gate : ℕ
trap_gate = 0x0F

abbrev pub kernel_cs : ℕ
kernel_cs = 0x0010

abbrev pub kernel_tss : ℕ
kernel_tss = 0x0030

-- The gate and the protection level of each exception.
abbrev pub idt_gates : ℕ → ℕ
idt_gates v = or_zero (
    get_elem?
      (15 ∷ 15 ∷ 14 ∷ 14 ∷ 15 ∷ 15 ∷ 15 ∷ 15 ∷ 5 ∷ 15 ∷ 15 ∷ 15 ∷ 15 ∷ 15 ∷ 14 ∷ 15 ∷ 15 ∷ 15 ∷ 15
        ∷ 15 ∷ [])
      v)

abbrev pub idt_protections : ℕ → ℕ
idt_protections v = or_zero (
    get_elem? (0 ∷ 0 ∷ 0 ∷ 3 ∷ 3 ∷ 3 ∷ 0 ∷ 0 ∷ 0 ∷ 0 ∷ 0 ∷ 0 ∷ 0 ∷ 0 ∷ 0 ∷ 0 ∷ 0 ∷ 0 ∷ 0 ∷ 0 ∷ [])
      v)

-- SET_IDT_ENTRY
abbrev pub set_offset : IdtDesc → ℕ → IdtDesc
set_offset d handler = record d {
  offset_31_16 = bit_and handler 0xFFFF0000 / 2 ^ 16;
  offset_15_00 = bit_and handler 0xFFFF;
}

-- The fields that a gate's number sets, and the two that are always 0.
abbrev pub set_gate : IdtDesc → ℕ → IdtDesc
set_gate d cur_gate = record d {
  reserved0 = 0;
  size = bit_and cur_gate 0x08 / 2 ^ 3;
  reserved1 = bit_and cur_gate 0x04 / 2 ^ 2;
  reserved2 = bit_and cur_gate 0x02 / 2;
  reserved3 = bit_and cur_gate 0x01;
  reserved4 = 0;
}

-- The fields of an entry with the given protection level and presence, as an interrupt gate.
abbrev pub interrupt_entry : IdtDesc → ℕ → ℕ → ℕ → IdtDesc
interrupt_entry d handler dpl present = record (set_offset d handler) {
  dpl = dpl;
  present = present;
  seg_selector = kernel_cs;
  reserved0 = 0;
  size = 1;
  reserved1 = 1;
  reserved2 = 1;
  reserved3 = 0;
  reserved4 = 0;
}

abbrev pub is_exception : ℕ → Bool
is_exception v = ltb v 20 && not (v == 1) && not (v == 9) && not (v == 15)

-- set_idt_entry without a function, on the entry of the vector.
unfoldable pub null_entry : (ℕ → ℕ) → ℕ → ℕ → IdtDesc → IdtDesc
null_entry idt_functions sys_call_handler v d =
    if is_exception v
    then set_gate
        (if idt_gates v == task_gate
          then record (set_offset d 1) { seg_selector = kernel_tss; present = 1; dpl = 0 }
          else record (set_offset d (idt_functions v)) {
            dpl = idt_protections v;
            present = 1;
            seg_selector = kernel_cs;
          })
        (idt_gates v)
    else if v == sys_call_num
    then set_gate
        (record (set_offset d sys_call_handler) { seg_selector = kernel_cs; dpl = 3; present = 1 })
        trap_gate
    else if d.present == 0
    then interrupt_entry d 1 0 0
    else d

abbrev pub put_entry : Idt → ℕ → IdtDesc → Idt
put_entry idt v d k = if k == v then d else idt k

unfoldable pub set_idt_entry : (ℕ → ℕ) → ℕ → Idt → ℕ → Option ℕ → Idt
set_idt_entry idt_functions sys_call_handler idt v (some in_function) =
    put_entry idt v (interrupt_entry (idt v) in_function 0 1)
set_idt_entry idt_functions sys_call_handler idt v none =
    put_entry idt v (null_entry idt_functions sys_call_handler v (idt v))

-- The loop of entry over all vectors.
unfoldable pub fill_loop : (ℕ → ℕ) → ℕ → ℕ → ℕ → Idt → Idt
fill_loop idt_functions sys_call_handler zero i idt = idt
fill_loop idt_functions sys_call_handler (suc left) i idt =
    fill_loop idt_functions sys_call_handler left (i + 1)
      (set_idt_entry idt_functions sys_call_handler idt i none)

-- What entry does to the table: the clock's and the keyboard's handler, then all vectors.
unfoldable pub fill_idt : (ℕ → ℕ) → ℕ → ℕ → ℕ → Idt → Idt
fill_idt idt_functions sys_call_handler rtc_handler key_handler idt =
    let clock = set_idt_entry idt_functions sys_call_handler idt 0x28 (some rtc_handler) in
    let keyboard =
      set_idt_entry idt_functions sys_call_handler clock (0x20 + 1) (some key_handler) in
    fill_loop idt_functions sys_call_handler 256 0 keyboard
