-- ===== src/Rtc.antt =====
-- The driver of the real-time clock, student-distrib/rtc_driver.c. What inb reads from the clock
-- is an argument, `prev`.
pub mod Rate
pub mod Device
mod Tests
use linux_based_os.Prelude.{
  ℕ, zero, suc, ◌+◌, ◌-◌, ◌*◌, ◌/◌, ◌%◌, ◌^◌, Bool, true, false, not, ◌||◌, ltb, leb, ◌==◌,
  if◌then◌else◌, Bytes, byte_at, bit_and, bit_or, ℤ, pos, failure, List, [], ◌∷◌, Option, none,
  some, set,
}
use linux_based_os.Pcb.{FileArray, FileDesc, desc, index, find_unused}
use linux_based_os.Pic.{Pic, outb, enable_irq, send_eoi}
use linux_based_os.Filesys.File.{is_out_of_range, flags_type}

-- The flag of the driver, the ports and the interrupt flag of the processor.
pub record Rtc : Type 0 where
  pub rtc_interrupt : ℕ
  pub pic : Pic
  pub interrupts : Bool

abbrev pub rtc_port : ℕ
rtc_port = 0x70

abbrev pub rtc_reg_a : ℕ
rtc_reg_a = 0x8A

abbrev pub rtc_reg_b : ℕ
rtc_reg_b = 0x8B

abbrev pub rtc_reg_c : ℕ
rtc_reg_c = 0x8C

-- The four words that select a register, and write it.
abbrev pub write_register : Pic → ℕ → ℕ → Pic
write_register p register value =
    outb (outb (outb p register rtc_port) register rtc_port) (value % 2 ^ 8) (rtc_port + 1)

unfoldable pub rtc_init : Rtc → ℕ → Rtc
rtc_init r prev = record r { pic = write_register r.pic rtc_reg_b (bit_or prev 0x40) }

-- What rtc_open and the other operations leave.
pub record RtcDone : Type 0 where
  pub ret : ℤ
  pub rtc : Rtc
  pub files : FileArray

-- The flags that rtc_open sets.
abbrev pub rtc_open_flags : ℕ
rtc_open_flags = bit_or (bit_or 0x00000001 0) (0x1 * 2 ^ 8)

-- The part of rtc_open that sets the rate and unmasks the two lines.
unfoldable pub start_rtc : Rtc → ℕ → Rtc
start_rtc r prev = record r {
  rtc_interrupt = 0;
  interrupts = false;
  pic =
      enable_irq (enable_irq (write_register r.pic rtc_reg_a (bit_or (bit_and prev 0xF0) 0x0F)) 2)
        8;
}

-- The file name is not looked at.
unfoldable pub rtc_open : Rtc → FileArray → ℕ → RtcDone
rtc_open r files prev =
    let started = start_rtc r prev in
    let file_idx = find_unused 6 2 files in
    if leb 8 file_idx then record { ret = failure; rtc = started; files = files } else record {
      ret = pos 0;
      rtc = record started { interrupts = true };
      files =
          set files file_idx
            (record (desc files file_idx) { inode = 0; file_pos = 0; flags = rtc_open_flags });
    }

unfoldable pub rtc_close : FileArray → ℤ → ℤ × FileArray
rtc_close files fd =
    if is_out_of_range fd
    then (failure, files)
    else if not (flags_type (desc files (index fd)).flags == 0)
    then (failure, files)
    else if (desc files (index fd)).flags % 2 == 0
    then (failure, files)
    else (pos 0, set files (index fd) (record (desc files (index fd)) { flags = 0 }))

-- while (input_rate >>= 1) input_base++; a rate has 8 bits, so 8 rounds are enough.
unfoldable pub base_loop : ℕ → ℕ → ℕ → ℕ
base_loop zero input_rate input_base = input_base
base_loop (suc left) input_rate input_base =
    let rest = base_loop left (input_rate / 2) (input_base + 1) in
    if input_rate / 2 == 0 then input_base else rest

-- The exponent that rtc_write finds for a rate, or `none` where it refuses the rate.
unfoldable pub rate_base : ℕ → Option ℕ
rate_base rate =
    let input_base = base_loop 8 rate 0 in
    if not (bit_and rate ((rate + (2 ^ 32 - 1)) % 2 ^ 32) == 0)
    then none
    else if ltb input_base 2 || ltb 10 input_base
    then none
    else some input_base

unfoldable pub set_rate : Rtc → ℕ → Option ℕ → ℤ × Rtc
set_rate r prev none = (failure, r)
set_rate r prev (some input_base) = (
  pos 0,
  record r {
    interrupts = true;
    pic =
        write_register r.pic rtc_reg_a
          (bit_or (bit_and prev 0xF0) (bit_and (16 - input_base) 0x0F));
  },
)

unfoldable pub rtc_write : Rtc → ℤ → Bytes → ℤ → ℕ → ℤ × Rtc
rtc_write r fd buf nbytes prev = set_rate r prev (rate_base (byte_at buf 0))

unfoldable pub rtc_handler : Rtc → Rtc
rtc_handler r = record r {
  rtc_interrupt = 1;
  pic = send_eoi (outb r.pic rtc_reg_c rtc_port) 8;
  interrupts = true;
}

-- The loop of rtc_read. While interrupts are on between two tests, the clock interrupts or not;
-- `none` where no test within the list finds the flag.
unfoldable pub rtc_read : Rtc → List Bool → Option (ℤ × Rtc)
rtc_read r [] =
    if not (r.rtc_interrupt == 0)
    then some (pos 0, record r { rtc_interrupt = 0; interrupts = false })
    else none
rtc_read r (ticks ∷ later) =
    let on = record r { interrupts = true } in
    let rest = rtc_read (if ticks then rtc_handler on else on) later in
    if not (r.rtc_interrupt == 0)
    then some (pos 0, record r { rtc_interrupt = 0; interrupts = false })
    else rest
