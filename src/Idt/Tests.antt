-- ===== src/Idt/Tests.antt =====
-- The theorem on the table of student-distrib/kernel.c at a concrete vector.
use linux_based_os.Prelude.{ℕ, ◌+◌, ◌*◌, refl, arith}
use linux_based_os.Idt.{Idt, fill_idt}
use linux_based_os.Idt.Fill.{IsFilled, fill_idt-IsFilled}

abbrev empty : Idt
empty k = record {
  offset_15_00 = 0;
  seg_selector = 0;
  reserved4 = 0;
  reserved3 = 0;
  reserved2 = 0;
  reserved1 = 0;
  size = 0;
  reserved0 = 0;
  dpl = 0;
  present = 0;
  offset_31_16 = 0;
}

abbrev routines : ℕ → ℕ
routines k = 0x400000 + k * 16

fill_idt-IsFilled_example :
    IsFilled routines 0x401000 0x402000 0x403000 14
      (fill_idt routines 0x401000 0x402000 0x403000 empty 14)
fill_idt-IsFilled_example =
    fill_idt-IsFilled routines 0x401000 0x402000 0x403000 empty 14 (omega arith) (omega arith)
      (omega arith) (omega arith) (omega arith) refl
