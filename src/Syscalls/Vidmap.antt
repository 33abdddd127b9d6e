-- ===== src/Syscalls/Vidmap.antt =====
-- sys_vidmap_c of student-distrib/sys_calls.c on the tables that init_paging leaves.
use linux_based_os.Prelude.{
  ℕ, ◌+◌, ◌*◌, ◌/◌, ◌%◌, ◌^◌, ◌<◌, ◌≤◌, ◌≡◌, refl, arith, false, ◌==◌, pos, failure, some, none,
  lt→leb, le→leb, ne→==, eq→==,
}
use linux_based_os.Paging.{Paging, init_paging, table_at, get_page_table_entry, vid_addr}
use linux_based_os.Paging.Tables.{directory, table_1_word}
use linux_based_os.Paging.Walk.{IsLinked, walk, init_paging-mapped}
use linux_based_os.Syscalls.Args.{sys_vidmap}

-- Where programs see the screen.
abbrev pub user_screen : ℕ
user_screen = 0x084B8000

module _ (table_0 table_1 : ℕ) (elsewhere : ℕ → ℕ → ℕ) (p : Paging)
    (l : IsLinked table_0 table_1) where
  abbrev done : Paging
  done = init_paging table_0 table_1 p

  at_table_1 :
      (t i : ℕ) → t ≡ table_1 → table_at table_0 table_1 elsewhere done t i ≡ done.page_table_1 i
  unfolding table_at
  at_table_1 t i e = rw (e, ne→== table_1 table_0 l.apart, eq→== table_1 table_1 refl) refl

  video_entry :
      get_page_table_entry table_0 table_1 elsewhere done 33 0xB8 ≡ some (table_1 + 4 * 0xB8)
  unfolding get_page_table_entry
  video_entry =
      let d : done.page_directory 33 ≡ table_1 / 2 ^ 12 * 2 ^ 12 + 7 =
        directory table_0 table_1 p 33 l.fits_0 l.fits_1 (omega arith) in
      let present : (done.page_directory 33 % 2 == 0) ≡ false = ne→== _ _ (omega (arith, d)) in
      let base : done.page_directory 33 / 2 ^ 12 * 2 ^ 12 ≡ table_1 =
        omega (arith, d, l.aligned_1) in
      let word = table_1_word table_0 table_1 p 0xB8 in
      let page : (done.page_table_1 0xB8 % 2 == 0) ≡ false = ne→== _ _ (omega (arith, word)) in
      rw (present, base, at_table_1 table_1 0xB8 refl, page) refl

  -- After init_paging, vidmap refuses a pointer up to 4 MB and stores nothing; for every other one
  -- it returns 0 and stores an address that the processor translates to the video memory.
  pub sys_vidmap-mapped :
      (screen_start : ℕ)
      → (screen_start ≤ 0x00400000
          → sys_vidmap table_0 table_1 elsewhere done screen_start ≡ (failure, none))
        × (0x00400000 < screen_start
            → (sys_vidmap table_0 table_1 elsewhere done screen_start ≡ (pos 0, some user_screen))
              × (walk table_0 table_1 elsewhere done user_screen ≡ some vid_addr))
  unfolding sys_vidmap
  sys_vidmap-mapped screen_start = (
    λ low. rw (le→leb screen_start 0x00400000 low) refl,
    λ high. (
      rw (lt→leb screen_start 0x00400000 high, video_entry) refl,
      init_paging-mapped table_0 table_1 elsewhere p user_screen l (omega arith),
    ),
  )
