-- ===== src/Rtc/Device.antt =====
-- rtc_open, rtc_close, rtc_read and rtc_handler of student-distrib/rtc_driver.c.
use linux_based_os.Prelude.{
  ℕ, ◌<◌, ◌≤◌, ◌≡◌, ◌≢◌, ◌⊎◌, inl, inr, refl, ap, ◌∙◌, arith, Bool, true, false, ◌==◌,
  if◌then◌else◌, Bool-cases, List, [], ◌∷◌, some, ℤ, pos, failure, set, lt→leb, le→leb, ne→==,
}
use linux_based_os.Pcb.{FileArray, FileDesc, desc, find_unused}
use linux_based_os.Pic.{Pic, enable_irq}
use linux_based_os.Pic.Masks.{masked, enable_irq_lem}
use linux_based_os.Rtc.{Rtc, rtc_open, start_rtc, rtc_read, rtc_handler}

unmasks_two :
    (p : Pic) (k : ℕ)
    → k < 16
    → masked (enable_irq (enable_irq p 2) 8) k
      ≡ (if k == 8 then 0 else if k == 2 then 0 else masked p k)
unmasks_two p k h =
    (enable_irq_lem (enable_irq p 2) 8 k (omega arith) h).0
    ∙ ap (λ b. if k == 8 then 0 else b) (enable_irq_lem p 2 k (omega arith) h).0

-- A descriptor on the clock.
abbrev pub on_clock : FileDesc → FileDesc
on_clock f = record f { inode = 0; file_pos = 0; flags = 0x101 }

-- rtc_open with a descriptor free opens the first free one on the clock and no other, unmasks
-- lines 2 and 8 and no others, and leaves interrupts on, with no interrupt pending. Without a
-- free descriptor it fails and opens none, but leaves interrupts off.
pub rtc_open_lem :
    (r : Rtc) (files : FileArray) (prev : ℕ)
    → let out = rtc_open r files prev in
      let fd = find_unused 6 2 files in
      (fd < 8
        → (out.ret ≡ pos 0)
          × (out.files ≡ set files fd (on_clock (desc files fd)))
          × (out.rtc.rtc_interrupt ≡ 0)
          × (out.rtc.interrupts ≡ true)
          × ((k : ℕ)
              → k < 16
              → masked out.rtc.pic k
                ≡ (if k == 8 then 0 else if k == 2 then 0 else masked r.pic k)))
      × (8 ≤ fd → (out.ret ≡ failure) × (out.files ≡ files) × (out.rtc.interrupts ≡ false))
unfolding rtc_open start_rtc masked
rtc_open_lem r files prev = (
  λ free.
      rw (lt→leb 8 (find_unused 6 2 files) free) (refl, refl, refl, refl, λ k h. unmasks_two _ k h),
  λ full. rw (le→leb 8 (find_unused 6 2 files) full) (refl, refl, refl),
)

-- An interrupt is pending, or comes while the loop has interrupts on.
unfoldable pub Ticks : Rtc → List Bool → Type 0
Ticks r [] = r.rtc_interrupt ≢ 0
Ticks r (ticks ∷ later) =
    (r.rtc_interrupt ≢ 0) ⊎ (ticks ≡ true) ⊎ Ticks (record r { interrupts = true }) later

-- How rtc_read ends.
pub record IsTicked (out : ℤ × Rtc) : Type 0 where
  pub ret : out.0 ≡ pos 0
  pub taken : out.1.rtc_interrupt ≡ 0
  pub off : out.1.interrupts ≡ false

abbrev taken_tick : Rtc → ℤ × Rtc
taken_tick r = (pos 0, record r { rtc_interrupt = 0; interrupts = false })

rtc_read-now :
    (r : Rtc) (later : List Bool) → r.rtc_interrupt ≢ 0 → rtc_read r later ≡ some (taken_tick r)
unfolding rtc_read
rtc_read-now r [] h = rw (ne→== r.rtc_interrupt 0 h) refl
rtc_read-now r (ticks ∷ later) h = rw (ne→== r.rtc_interrupt 0 h) refl

later-Ticks :
    (r : Rtc) (ticks : Bool) (later : List Bool)
    → Ticks r (ticks ∷ later)
    → (r.rtc_interrupt == 0) ≡ true
    → ticks ≡ false
    → Ticks (record r { interrupts = true }) later
unfolding Ticks
later-Ticks r ticks later (inl now) wait no_tick = absurd (ground arith)
later-Ticks r ticks later (inr (inl tick)) wait no_tick = absurd (ground arith)
later-Ticks r ticks later (inr (inr h)) wait no_tick = h

handled : (r : Rtc) → (rtc_handler r).rtc_interrupt ≢ 0
unfolding rtc_handler
handled r e = omega arith

-- rtc_read returns 0 once the clock interrupts, or at once where an interrupt is pending, and takes
-- that interrupt. It leaves interrupts off.
pub rtc_read-IsTicked :
    (r : Rtc) (later : List Bool)
    → Ticks r later
    → (out : ℤ × Rtc) × (rtc_read r later ≡ some out) × IsTicked out
unfolding Ticks rtc_read
rtc_read-IsTicked r [] h = (
  taken_tick r,
  rw (ne→== r.rtc_interrupt 0 h) refl,
  record { ret = refl; taken = refl; off = refl },
)
rtc_read-IsTicked r (ticks ∷ later) h = elim (Bool-cases (r.rtc_interrupt == 0)) [
  | inr now ↦ (taken_tick r, rw now refl, record { ret = refl; taken = refl; off = refl })
  | inl wait ↦ elim (Bool-cases ticks) [
    | inl tick ↦ (
      taken_tick (rtc_handler (record r { interrupts = true })),
      rw (wait, tick)
          (rtc_read-now (rtc_handler (record r { interrupts = true })) later (handled _)),
      record { ret = refl; taken = refl; off = refl },
    )
    | inr no_tick ↦
        let (out, e, v) =
          rtc_read-IsTicked (record r { interrupts = true }) later
            (later-Ticks r ticks later h wait no_tick) in
        (out, rw (wait, no_tick) e, v)
  ]
]
