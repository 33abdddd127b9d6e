-- ===== src/Paging/Walk.antt =====
-- The translation that the tables of student-distrib/paging_c.c give to the processor.
use linux_based_os.Prelude.{
  ℕ, ◌+◌, ◌-◌, ◌*◌, ◌/◌, ◌%◌, ◌^◌, ◌<◌, ◌≡◌, ◌≢◌, inl, inr, refl, ap, ◌∙◌, arith, Bool-cases, false,
  ◌==◌, if◌then◌else◌, Option, none, some, eq→==, ne→==, ==→eq,
}
use native.Mathlib.Decide.{ℕ_discrete}
use linux_based_os.Paging.{Paging, init_paging, table_at}
use linux_based_os.Paging.Tables.{ker_word, program_word, directory, table_0_word, table_1_word}

-- How the processor translates an address with these tables: a directory entry that is present
-- names a page of 4 MB where bit 7 is set, else a page table.
unfoldable pub walk_table : ℕ → ℕ → Option ℕ
walk_table entry v = if entry % 2 == 0 then none else some (entry / 2 ^ 12 * 2 ^ 12 + v % 2 ^ 12)

unfoldable pub walk_entry : ℕ → ℕ → (ℕ → ℕ → ℕ) → Paging → ℕ → ℕ → Option ℕ
walk_entry table_0 table_1 elsewhere p entry v =
    if entry % 2 == 0
    then none
    else if entry / 2 ^ 7 % 2 == 1
    then some (entry / 2 ^ 22 * 2 ^ 22 + v % 2 ^ 22)
    else walk_table
        (table_at table_0 table_1 elsewhere p (entry / 2 ^ 12 * 2 ^ 12) (v / 2 ^ 12 % 2 ^ 10)) v

unfoldable pub walk : ℕ → ℕ → (ℕ → ℕ → ℕ) → Paging → ℕ → Option ℕ
walk table_0 table_1 elsewhere p v =
    walk_entry table_0 table_1 elsewhere p (p.page_directory (v / 2 ^ 22)) v

-- The entry of a page table, with flags that name no big page.
walk_entry-table :
    (table_0 table_1 : ℕ) (elsewhere : ℕ → ℕ → ℕ) (p : Paging) (t f e v : ℕ)
    → e ≡ t / 2 ^ 12 * 2 ^ 12 + f
    → t % 2 ^ 12 ≡ 0
    → f % 2 ≡ 1
    → f < 2 ^ 7
    → walk_entry table_0 table_1 elsewhere p e v
      ≡ walk_table (table_at table_0 table_1 elsewhere p t (v / 2 ^ 12 % 2 ^ 10)) v
unfolding walk_entry
walk_entry-table table_0 table_1 elsewhere p t f e v h a odd small =
    let present : (e % 2 == 0) ≡ false = ne→== _ _ (omega arith) in
    let no_big : (e / 2 ^ 7 % 2 == 1) ≡ false = ne→== _ _ (omega arith) in
    let base : e / 2 ^ 12 * 2 ^ 12 ≡ t = omega arith in rw (present, no_big, base) refl

walk_entry-big :
    (table_0 table_1 : ℕ) (elsewhere : ℕ → ℕ → ℕ) (p : Paging) (e v : ℕ)
    → e % 2 ≡ 1
    → e / 2 ^ 7 % 2 ≡ 1
    → walk_entry table_0 table_1 elsewhere p e v ≡ some (e / 2 ^ 22 * 2 ^ 22 + v % 2 ^ 22)
unfolding walk_entry
walk_entry-big table_0 table_1 elsewhere p e v h b =
    let present : (e % 2 == 0) ≡ false = ne→== _ _ (omega arith) in rw (present, eq→== _ _ b) refl

-- Where an address leads: the first 4 MB hold the page of video memory alone, the kernel's page
-- stands for itself, the program's page for the first 4 MB, and video memory again, for programs,
-- is in the 4 MB behind it, whose other pages are those that page table 1 held before.
abbrev pub mapped : (ℕ → ℕ) → ℕ → Option ℕ
mapped old v =
    if v / 2 ^ 22 == 0
    then if v / 2 ^ 12 % 2 ^ 10 == 0xB8 then some v else none
    else if v / 2 ^ 22 == 1
    then some v
    else if v / 2 ^ 22 == 32
    then some (v - 32 * 2 ^ 22)
    else if v / 2 ^ 22 == 33
    then if v / 2 ^ 12 % 2 ^ 10 == 0xB8
      then some (v - 33 * 2 ^ 22)
      else walk_table (old (v / 2 ^ 12 % 2 ^ 10)) v
    else none

-- The addresses of the two page tables.
pub record IsLinked (table_0 table_1 : ℕ) : Type 0 where
  pub fits_0 : table_0 < 2 ^ 32
  pub fits_1 : table_1 < 2 ^ 32
  pub aligned_0 : table_0 % 2 ^ 12 ≡ 0
  pub aligned_1 : table_1 % 2 ^ 12 ≡ 0
  pub apart : table_1 ≢ table_0

walk_table_page :
    (w f v base rest : ℕ)
    → f % 2 ≡ 1
    → f < 2 ^ 12
    → w ≡ (if v / 2 ^ 12 % 2 ^ 10 == 0xB8 then 0xB8000 + f else rest)
    → v / 2 ^ 22 * 2 ^ 22 ≡ base
    → walk_table w v ≡ (if v / 2 ^ 12 % 2 ^ 10 == 0xB8 then some (v - base) else walk_table rest v)
unfolding walk_table
walk_table_page w f v base rest odd small h b = elim (Bool-cases (v / 2 ^ 12 % 2 ^ 10 == 0xB8)) [
  | inl e ↦
      let value : w ≡ 0xB8000 + f = h ∙ rw e refl in
      let present : (w % 2 == 0) ≡ false = ne→== _ _ (omega arith) in
      rw (e, present) (ap some (omega (arith, ==→eq _ _ e)))
  | inr e ↦ let value : w ≡ rest = h ∙ rw e refl in rw (e, value) refl
]

module _ (table_0 table_1 : ℕ) (elsewhere : ℕ → ℕ → ℕ) (p : Paging) (v : ℕ)
    (l : IsLinked table_0 table_1) (fits : v < 2 ^ 32) where
  abbrev done : Paging
  done = init_paging table_0 table_1 p

  abbrev from_entry : ℕ → Option ℕ
  from_entry e = walk_entry table_0 table_1 elsewhere done e v

  entry_of :
      (k : ℕ)
      → v / 2 ^ 22 ≡ k
      → done.page_directory (v / 2 ^ 22) ≡ (
          if k == 0
          then table_0 / 2 ^ 12 * 2 ^ 12 + 3
          else if k == 1
          then ker_word
          else if k == 32
          then program_word
          else if k == 33
          then table_1 / 2 ^ 12 * 2 ^ 12 + 7
          else 0)
  entry_of k e =
      ap done.page_directory e ∙ directory table_0 table_1 p k l.fits_0 l.fits_1 (omega arith)

  at_0 : (i : ℕ) → table_at table_0 table_1 elsewhere done table_0 i ≡ done.page_table_0 i
  unfolding table_at
  at_0 i = rw (eq→== table_0 table_0 refl) refl

  at_1 : (i : ℕ) → table_at table_0 table_1 elsewhere done table_1 i ≡ done.page_table_1 i
  unfolding table_at
  at_1 i = rw (ne→== table_1 table_0 l.apart, eq→== table_1 table_1 refl) refl

  in_low :
      v / 2 ^ 22 ≡ 0
      → from_entry (done.page_directory (v / 2 ^ 22))
        ≡ (if v / 2 ^ 12 % 2 ^ 10 == 0xB8 then some (v - 0) else none)
  unfolding walk_table
  in_low e =
      ap from_entry (entry_of 0 e)
      ∙ walk_entry-table table_0 table_1 elsewhere done table_0 3 _ v refl l.aligned_0 refl
          (omega arith)
      ∙ walk_table_page _ 3 v 0 0 refl (omega arith)
          (at_0 _ ∙ table_0_word table_0 table_1 p (v / 2 ^ 12 % 2 ^ 10) (omega arith))
          (omega arith)

  in_user :
      v / 2 ^ 22 ≡ 33
      → from_entry (done.page_directory (v / 2 ^ 22)) ≡ (
          if v / 2 ^ 12 % 2 ^ 10 == 0xB8
          then some (v - 33 * 2 ^ 22)
          else walk_table (p.page_table_1 (v / 2 ^ 12 % 2 ^ 10)) v)
  in_user e =
      ap from_entry (entry_of 33 e)
      ∙ walk_entry-table table_0 table_1 elsewhere done table_1 7 _ v refl l.aligned_1 refl
          (omega arith)
      ∙ walk_table_page _ 7 v (33 * 2 ^ 22) (p.page_table_1 (v / 2 ^ 12 % 2 ^ 10)) refl
          (omega arith) (at_1 _ ∙ table_1_word table_0 table_1 p (v / 2 ^ 12 % 2 ^ 10))
          (omega arith)

  in_kernel : v / 2 ^ 22 ≡ 1 → from_entry (done.page_directory (v / 2 ^ 22)) ≡ some v
  in_kernel e =
      ap from_entry (entry_of 1 e)
      ∙ walk_entry-big table_0 table_1 elsewhere done ker_word v refl refl
      ∙ ap some (omega arith)

  in_program :
      v / 2 ^ 22 ≡ 32 → from_entry (done.page_directory (v / 2 ^ 22)) ≡ some (v - 32 * 2 ^ 22)
  in_program e =
      ap from_entry (entry_of 32 e)
      ∙ walk_entry-big table_0 table_1 elsewhere done program_word v refl refl
      ∙ ap some (omega arith)

  no_page :
      v / 2 ^ 22 ≢ 0
      → v / 2 ^ 22 ≢ 1
      → v / 2 ^ 22 ≢ 32
      → v / 2 ^ 22 ≢ 33
      → from_entry (done.page_directory (v / 2 ^ 22)) ≡ none
  unfolding walk_entry
  no_page a b c d =
      let absent : done.page_directory (v / 2 ^ 22) ≡ 0 =
        entry_of (v / 2 ^ 22) refl ∙ ground arith in
      rw absent refl

  -- After init_paging, whatever the directory and the tables held before, the processor translates
  -- every address of 32 bits: video memory and the kernel's page stand for themselves, the page of
  -- programs for the first 4 MB, and the page for programs 33 * 4 MB above video memory for video
  -- memory. The other pages of the 4 MB around that last one are as page table 1 had them before,
  -- and no other address has a page. The two page tables are apart and start at multiples of 4096.
  pub init_paging-mapped : walk table_0 table_1 elsewhere done v ≡ mapped p.page_table_1 v
  unfolding walk
  init_paging-mapped = elim (ℕ_discrete (v / 2 ^ 22) 0) [
    | yes a ↦
        rw (eq→== _ _ a)
          (in_low a ∙ ap (λ w. if v / 2 ^ 12 % 2 ^ 10 == 0xB8 then some w else none) (omega arith))
    | no a ↦ elim (ℕ_discrete (v / 2 ^ 22) 1) [
      | yes b ↦ rw (ne→== _ _ a, eq→== _ _ b) (in_kernel b)
      | no b ↦ elim (ℕ_discrete (v / 2 ^ 22) 32) [
        | yes c ↦ rw (ne→== _ _ a, ne→== _ _ b, eq→== _ _ c) (in_program c)
        | no c ↦ elim (ℕ_discrete (v / 2 ^ 22) 33) [
          | yes d ↦ rw (ne→== _ _ a, ne→== _ _ b, ne→== _ _ c, eq→== _ _ d) (in_user d)
          | no d ↦ rw (ne→== _ _ a, ne→== _ _ b, ne→== _ _ c, ne→== _ _ d) (no_page a b c d)
        ]
      ]
    ]
  ]
