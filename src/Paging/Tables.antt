-- ===== src/Paging/Tables.antt =====
-- The words that init_paging of student-distrib/paging_c.c leaves in the tables.
use linux_based_os.Prelude.{
  ℕ, zero, suc, ◌+◌, ◌-◌, ◌*◌, ◌/◌, ◌%◌, ◌^◌, ◌<◌, ◌≡◌, ap, ◌∙◌, arith, leb, ltb, ◌==◌, ◌&&◌,
  if◌then◌else◌, update, bit_and,
}
use linux_based_os.Prelude.Bits.{bit_and_split, zero-bit_and, ones-bit_and}
use linux_based_os.Paging.{Paging, clear_table, init_paging, twenty_msb}

clear_table_lem :
    (left it : ℕ) (table : ℕ → ℕ) (k : ℕ)
    → clear_table left it table k ≡ (if leb it k && ltb k (it + left) then 0 else table k)
unfolding clear_table
clear_table_lem zero it table k = ground arith
clear_table_lem (suc left) it table k =
    clear_table_lem left (it + 1) (update table it 0) k ∙ ground arith

parts : (a : ℕ) → a ≡ a / 2 ^ 12 * 2 ^ 12 + a % 2 ^ 12
parts a = omega arith

-- The base address of a page.
page_base : (a : ℕ) → a < 2 ^ 32 → bit_and twenty_msb a / 2 ^ 12 ≡ a / 2 ^ 12
page_base a h =
    ap (λ b. b / 2 ^ 12)
      (ap (bit_and twenty_msb) (parts a)
        ∙ bit_and_split 12 (2 ^ 20 - 1) (a / 2 ^ 12) 0 (a % 2 ^ 12) (omega arith) (omega arith))
    ∙ omega (arith, ones-bit_and 20 (a / 2 ^ 12) (omega arith), zero-bit_and (a % 2 ^ 12))

-- The words of the two big pages.
abbrev pub ker_word : ℕ
ker_word = 2 ^ 22 + 403

abbrev pub program_word : ℕ
program_word = 151

module _ (table_0 table_1 : ℕ) (p : Paging) where
  -- The directory, entry by entry.
  pub directory :
      (k : ℕ)
      → table_0 < 2 ^ 32
      → table_1 < 2 ^ 32
      → k < 1024
      → (init_paging table_0 table_1 p).page_directory k ≡ (
          if k == 0
          then table_0 / 2 ^ 12 * 2 ^ 12 + 3
          else if k == 1
          then ker_word
          else if k == 32
          then program_word
          else if k == 33
          then table_1 / 2 ^ 12 * 2 ^ 12 + 7
          else 0)
  unfolding init_paging
  directory k h0 h1 b =
      ground (
        arith,
        clear_table_lem 1024 0 p.page_directory k,
        page_base table_0 h0,
        page_base table_1 h1,
      )

  pub table_0_word :
      (k : ℕ)
      → k < 1024
      → (init_paging table_0 table_1 p).page_table_0 k ≡ (if k == 0xB8 then 0xB8003 else 0)
  unfolding init_paging
  table_0_word k b = ground (arith, clear_table_lem 1024 0 p.page_table_0 k)

  pub table_1_word :
      (k : ℕ)
      → (init_paging table_0 table_1 p).page_table_1 k
        ≡ (if k == 0xB8 then 0xB8007 else p.page_table_1 k)
  unfolding init_paging
  table_1_word k = ground arith
