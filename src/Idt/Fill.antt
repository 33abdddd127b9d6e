-- ===== src/Idt/Fill.antt =====
-- What the table of student-distrib/kernel.c holds after it is filled.
use linux_based_os.Prelude.{
  ℕ, zero, suc, ◌+◌, ◌*◌, ◌/◌, ◌%◌, ◌^◌, ◌<◌, ◌≡◌, ◌≢◌, refl, ap, sym, ◌∙◌, arith, true, false, leb,
  ltb, ◌==◌, ◌&&◌, ◌||◌, not, if◌then◌else◌, bit_and, none, eq→==, ne→==, ==→eq,
}
use linux_based_os.Prelude.Bits.{bit_and_split, bit_and-zero, bit_and_ones}
use native.Mathlib.Decide.{ℕ_discrete}
use linux_based_os.Prelude.Below.{all_below, all_below_lem}
use linux_based_os.Idt.{
  IdtDesc, Idt, set_idt_entry, null_entry, fill_loop, fill_idt, is_exception, idt_gates,
  idt_protections, task_gate, int_gate, trap_gate, kernel_cs, kernel_tss, sys_call_num, set_offset,
  interrupt_entry,
}

-- The gate's type and the handler's address, as the processor reads them.
abbrev pub gate : IdtDesc → ℕ
gate d = d.size * 2 ^ 3 + d.reserved1 * 2 ^ 2 + d.reserved2 * 2 + d.reserved3

abbrev pub offset : IdtDesc → ℕ
offset d = d.offset_31_16 * 2 ^ 16 + d.offset_15_00

halves : (h : ℕ) → h ≡ h / 2 ^ 16 * 2 ^ 16 + h % 2 ^ 16
halves h = omega arith

set_offset-offset : (d : IdtDesc) (h : ℕ) → h < 2 ^ 32 → offset (set_offset d h) ≡ h
set_offset-offset d h fits =
    let hi : bit_and h 0xFFFF0000 ≡ h / 2 ^ 16 * 2 ^ 16 =
      ap (λ b. bit_and b 0xFFFF0000) (halves h)
      ∙ bit_and_split 16 (h / 2 ^ 16) 0xFFFF (h % 2 ^ 16) 0 (omega arith) (omega arith)
      ∙ omega (arith, bit_and_ones 16 (h / 2 ^ 16) (omega arith), bit_and-zero (h % 2 ^ 16)) in
    let lo : bit_and h 0xFFFF ≡ h % 2 ^ 16 =
      ap (λ b. bit_and b 0xFFFF) (halves h)
      ∙ bit_and_split 16 (h / 2 ^ 16) 0 (h % 2 ^ 16) 0xFFFF (omega arith) (omega arith)
      ∙ omega (arith, bit_and_ones 16 (h % 2 ^ 16) (omega arith), bit_and-zero (h / 2 ^ 16)) in
    omega (arith, hi, lo)

fill_loop_lem :
    (fns : ℕ → ℕ) (sys left i : ℕ) (idt : Idt) (k : ℕ)
    → fill_loop fns sys left i idt k
      ≡ (if leb i k && ltb k (i + left) then null_entry fns sys k (idt k) else idt k)
unfolding fill_loop set_idt_entry
fill_loop_lem fns sys zero i idt k = ground arith
fill_loop_lem fns sys (suc left) i idt k =
    fill_loop_lem fns sys left (i + 1) (set_idt_entry fns sys idt i none) k
    ∙ elim (ℕ_discrete k i) [
      | yes e ↦
          let here : (k == i) ≡ true = eq→== k i e in
          let past : (leb (i + 1) k && ltb k (i + 1 + left)) ≡ false = ground arith in
          let in_range : (leb i k && ltb k (i + suc left)) ≡ true = ground arith in
          rw (past, in_range, here) (ap (λ q. null_entry fns sys q (idt q)) (sym e))
      | no n ↦
          let other : (k == i) ≡ false = ne→== k i n in
          let same : (leb (i + 1) k && ltb k (i + 1 + left)) ≡ (leb i k && ltb k (i + suc left)) =
            ground arith in
          rw (other, same) refl
    ]

-- An entry with a handler at an address, a gate's type, a protection level, and present.
pub record IsGate (d : IdtDesc) (address kind privilege : ℕ) : Type 0 where
  pub handler : offset d ≡ address
  pub selector : d.seg_selector ≡ kernel_cs
  pub type : gate d ≡ kind
  pub level : d.dpl ≡ privilege
  pub present : d.present ≡ 1

abbrev type_bits : ℕ → ℕ
type_bits g =
    bit_and g 0x08 / 2 ^ 3 * 2 ^ 3
    + bit_and g 0x04 / 2 ^ 2 * 2 ^ 2
    + bit_and g 0x02 / 2 * 2
    + bit_and g 0x01

type_kept : (k : ℕ) → k < 20 → type_bits (idt_gates k) ≡ idt_gates k
unfolding all_below
type_kept k h = ==→eq _ _ (all_below_lem 20 (λ q. type_bits (idt_gates q) == idt_gates q) k refl h)

no_task : (k : ℕ) → k < 20 → k ≢ 8 → (idt_gates k == task_gate) ≡ false
unfolding all_below
no_task k h n =
    let t : ((k == 8) || not (idt_gates k == task_gate)) ≡ true =
      all_below_lem 20 (λ q. (q == 8) || not (idt_gates q == task_gate)) k refl h in
    ground arith

-- The entry of each vector after entry has filled the table, where no entry was present before.
pub record IsFilled (fns : ℕ → ℕ) (sys rtc key : ℕ) (k : ℕ) (d : IdtDesc) : Type 0 where
  pub exception : is_exception k ≡ true → k ≢ 8 → IsGate d (fns k) (idt_gates k) (idt_protections k)
  pub double_fault : k ≡ 8 → (d.seg_selector ≡ kernel_tss) × (gate d ≡ task_gate) × (d.present ≡ 1)
  pub system_call : k ≡ sys_call_num → IsGate d sys trap_gate 3
  pub clock : k ≡ 0x28 → IsGate d rtc int_gate 0
  pub keyboard : k ≡ 0x21 → IsGate d key int_gate 0
  pub other : is_exception k ≡ false → k ≢ sys_call_num → k ≢ 0x28 → k ≢ 0x21 → d.present ≡ 0

null_entry-exception :
    (fns : ℕ → ℕ) (sys k : ℕ) (d : IdtDesc)
    → is_exception k ≡ true
    → k ≢ 8
    → fns k < 2 ^ 32
    → IsGate (null_entry fns sys k d) (fns k) (idt_gates k) (idt_protections k)
unfolding null_entry
null_entry-exception fns sys k d e n fits =
    let below : k < 20 = ground arith in
    rw (e, no_task k below n)
      (record {
        handler = set_offset-offset d (fns k) fits;
        selector = refl;
        type = type_kept k below;
        level = refl;
        present = refl;
      })

null_entry-double :
    (fns : ℕ → ℕ) (sys : ℕ) (d : IdtDesc)
    → let e = null_entry fns sys 8 d in
      (e.seg_selector ≡ kernel_tss) × (gate e ≡ task_gate) × (e.present ≡ 1)
unfolding null_entry
null_entry-double fns sys d = (refl, refl, refl)

null_entry-system :
    (fns : ℕ → ℕ) (sys : ℕ) (d : IdtDesc)
    → sys < 2 ^ 32
    → IsGate (null_entry fns sys 0x80 d) sys trap_gate 3
unfolding null_entry
null_entry-system fns sys d fits = record {
  handler = set_offset-offset d sys fits;
  selector = refl;
  type = refl;
  level = refl;
  present = refl;
}

handler_entry :
    (fns : ℕ → ℕ) (sys k h : ℕ) (d : IdtDesc)
    → is_exception k ≡ false
    → (k == sys_call_num) ≡ false
    → h < 2 ^ 32
    → IsGate (null_entry fns sys k (interrupt_entry d h 0 1)) h int_gate 0
unfolding null_entry
handler_entry fns sys k h d e n fits =
    rw (e, n)
      (record {
        handler = set_offset-offset d h fits;
        selector = refl;
        type = refl;
        level = refl;
        present = refl;
      })

null_entry-other :
    (fns : ℕ → ℕ) (sys k : ℕ) (d : IdtDesc)
    → is_exception k ≡ false
    → k ≢ sys_call_num
    → d.present ≡ 0
    → (null_entry fns sys k d).present ≡ 0
unfolding null_entry
null_entry-other fns sys k d e n h = rw (e, ne→== k sys_call_num n, h) refl

fill_idt-entry :
    (fns : ℕ → ℕ) (sys rtc key : ℕ) (idt : Idt) (k : ℕ)
    → k < 256
    → fill_idt fns sys rtc key idt k
      ≡ null_entry fns sys k (
          if k == 0x21
          then interrupt_entry (idt 0x21) key 0 1
          else if k == 0x28
          then interrupt_entry (idt 0x28) rtc 0 1
          else idt k)
unfolding fill_idt set_idt_entry
fill_idt-entry fns sys rtc key idt k h =
    let all : (leb 0 k && ltb k 256) ≡ true = ground arith in
    fill_loop_lem fns sys 256 0 _ k ∙ rw all refl

-- After entry has filled the table, every vector has the entry that it is meant to have: the
-- exceptions with their routines, gates and levels, the double fault as a task gate, the system
-- call as a trap gate that programs may use, and the clock and the keyboard as interrupt gates. No
-- other vector is present, where none was before.
pub fill_idt-IsFilled :
    (fns : ℕ → ℕ) (sys rtc key : ℕ) (idt : Idt) (k : ℕ)
    → k < 256
    → fns k < 2 ^ 32
    → sys < 2 ^ 32
    → rtc < 2 ^ 32
    → key < 2 ^ 32
    → (idt k).present ≡ 0
    → IsFilled fns sys rtc key k (fill_idt fns sys rtc key idt k)
fill_idt-IsFilled fns sys rtc key idt k h ff fs fr fk absent =
    rw (fill_idt-entry fns sys rtc key idt k h) (record {
      exception = λ e n. null_entry-exception fns sys k _ e n ff;
      double_fault = λ e. rw e (null_entry-double fns sys _);
      system_call = λ e. rw e (null_entry-system fns sys _ fs);
      clock = λ e. rw e (handler_entry fns sys 0x28 rtc (idt 0x28) refl refl fr);
      keyboard = λ e. rw e (handler_entry fns sys 0x21 key (idt 0x21) refl refl fk);
      other =
          λ e n c b. null_entry-other fns sys k _ e n (rw (ne→== k 0x21 b, ne→== k 0x28 c) absent);
    })
