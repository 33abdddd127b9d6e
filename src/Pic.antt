-- ===== src/Pic.antt =====
-- The interrupt controller driver, student-distrib/i8259.c.
pub mod Masks
use linux_based_os.Prelude.{
  ℕ, ◌+◌, ◌-◌, ◌*◌, ◌%◌, ◌^◌, ltb, leb, if◌then◌else◌, bit_and, bit_or, List, [], ◌∷◌,
}

-- The masks, and what outb sent, the last pair of value and port first.
pub record Pic : Type 0 where
  pub master_mask : ℕ
  pub slave_mask : ℕ
  pub outs : List (ℕ × ℕ)

abbrev pub master_port : ℕ
master_port = 0x20

abbrev pub slave_port : ℕ
slave_port = 0xA0

-- The end-of-interrupt byte.
abbrev pub eoi : ℕ
eoi = 0x20

abbrev pub outb : Pic → ℕ → ℕ → Pic
outb p value port = record p { outs = (value, port) ∷ p.outs }

unfoldable pub i8259_init : Pic → Pic
i8259_init p =
    let m1 = outb p 0x11 master_port in
    let m2 = outb m1 0x20 (master_port + 1) in
    let m3 = outb m2 0x04 (master_port + 1) in
    let m4 = outb m3 0x01 (master_port + 1) in
    let s1 = outb m4 0x11 slave_port in
    let s2 = outb s1 0x28 (slave_port + 1) in
    let s3 = outb s2 0x02 (slave_port + 1) in outb s3 0x01 (slave_port + 1)

-- value = mask & ~(1 << n), in a byte
unfoldable pub clear_bit : ℕ → ℕ → ℕ
clear_bit mask n = bit_and mask (2 ^ 32 - 1 - 2 ^ n) % 2 ^ 8

-- value = mask | (1 << n), in a byte
unfoldable pub set_bit : ℕ → ℕ → ℕ
set_bit mask n = bit_or mask (2 ^ n) % 2 ^ 8

unfoldable pub enable_irq : Pic → ℕ → Pic
enable_irq p irq_num =
    if ltb irq_num 8
    then (let value = clear_bit p.master_mask irq_num in
        outb (record p { master_mask = value }) value (master_port + 1))
    else (let value = clear_bit p.slave_mask (irq_num - 8) in
        outb (record p { slave_mask = value }) value (slave_port + 1))

unfoldable pub disable_irq : Pic → ℕ → Pic
disable_irq p irq_num =
    if ltb irq_num 8
    then (let value = set_bit p.master_mask irq_num in
        outb (record p { master_mask = value }) value (master_port + 1))
    else (let value = set_bit p.slave_mask (irq_num - 8) in
        outb (record p { slave_mask = value }) value (slave_port + 1))

unfoldable pub send_eoi : Pic → ℕ → Pic
send_eoi p irq_num =
    let q = if leb 8 irq_num then outb p eoi slave_port else p in outb q eoi master_port
