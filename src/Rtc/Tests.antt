-- ===== src/Rtc/Tests.antt =====
-- The theorems on student-distrib/rtc_driver.c and student-distrib/i8259.c at concrete states.
use linux_based_os.Prelude.{
  ℕ, ◌^◌, ◌<◌, ◌≤◌, ◌≡◌, ◌≢◌, ◌⊎◌, inl, inr, refl, arith, true, false, ◌==◌, if◌then◌else◌, Bytes,
  [], ◌∷◌, some, ℤ, pos, failure, replicate, set,
}
use linux_based_os.Pcb.{FileArray, clear_fd, desc, find_unused}
use linux_based_os.Pic.{Pic, enable_irq, disable_irq}
use linux_based_os.Pic.Masks.{masked, enable_irq_lem}
use linux_based_os.Rtc.{Rtc, rtc_write, rtc_open, rtc_read}
use linux_based_os.Rtc.Rate.{rate_words, rtc_write_lem}
use linux_based_os.Rtc.Device.{on_clock, rtc_open_lem, Ticks, IsTicked, rtc_read-IsTicked}

abbrev all_masked : Pic
all_masked = record { master_mask = 0xFF; slave_mask = 0xFF; outs = [] }

enable_irq_lem_example :
    (masked (enable_irq all_masked 8) 8 ≡ 0) × (masked (disable_irq all_masked 8) 8 ≡ 1)
enable_irq_lem_example = enable_irq_lem all_masked 8 8 (omega arith) (omega arith)

abbrev idle : Rtc
idle = record { rtc_interrupt = 0; pic = all_masked; interrupts = true }

-- A request for 32 interrupts a second.
abbrev rate_32 : Bytes
rate_32 i = if i == 0 then 32 else 0

rtc_write_lem_example :
    ((rtc_write idle (pos 2) rate_32 (pos 4) 0x26 ≡ (failure, idle))
      × ((n : ℕ) → 2 ≤ n → n ≤ 7 → 32 ≢ 2 ^ n))
    ⊎ ((n : ℕ) × (2 ≤ n)
        × (n ≤ 7)
        × (32 ≡ 2 ^ n)
        × ((rtc_write idle (pos 2) rate_32 (pos 4) 0x26).0 ≡ pos 0)
        × ((rtc_write idle (pos 2) rate_32 (pos 4) 0x26).1.pic.outs ≡ rate_words 0x26 n []))
rtc_write_lem_example = rtc_write_lem idle (pos 2) rate_32 (pos 4) 0x26 (omega arith)

abbrev free_files : FileArray
free_files = replicate 8 clear_fd

rtc_open_lem_example :
    let out = rtc_open idle free_files 0x26 in
    let fd = find_unused 6 2 free_files in
    (fd < 8
      → (out.ret ≡ pos 0)
        × (out.files ≡ set free_files fd (on_clock (desc free_files fd)))
        × (out.rtc.rtc_interrupt ≡ 0)
        × (out.rtc.interrupts ≡ true)
        × ((k : ℕ)
            → k < 16
            → masked out.rtc.pic k
              ≡ (if k == 8 then 0 else if k == 2 then 0 else masked all_masked k)))
    × (8 ≤ fd → (out.ret ≡ failure) × (out.files ≡ free_files) × (out.rtc.interrupts ≡ false))
rtc_open_lem_example = rtc_open_lem idle free_files 0x26

tick_comes : Ticks idle (false ∷ true ∷ [])
unfolding Ticks
tick_comes = inr (inr (inr (inl refl)))

rtc_read-IsTicked_example :
    (out : ℤ × Rtc) × (rtc_read idle (false ∷ true ∷ []) ≡ some out) × IsTicked out
rtc_read-IsTicked_example = rtc_read-IsTicked idle (false ∷ true ∷ []) tick_comes
