-- ===== src/Paging/Entries.antt =====
-- The entries of page directories and page tables, student-distrib/paging_c.h.
use linux_based_os.Prelude.{ℕ, ◌+◌, ◌*◌, ◌^◌}

-- `pd_entry_smallPage_t`
pub record SmallPage : Type 0 where
  pub present : ℕ
  pub rw_enable : ℕ
  pub user_super : ℕ
  pub write_through : ℕ
  pub cache_disabled : ℕ
  pub accessed : ℕ
  pub reserved : ℕ
  pub page_size : ℕ
  pub global_page : ℕ
  pub available : ℕ
  pub page_table_base_addr : ℕ

-- `pd_entry_bigPage_t`
pub record BigPage : Type 0 where
  pub present : ℕ
  pub rw_enable : ℕ
  pub user_super : ℕ
  pub write_through : ℕ
  pub cache_disabled : ℕ
  pub accessed : ℕ
  pub dirty : ℕ
  pub page_size : ℕ
  pub global_page : ℕ
  pub available : ℕ
  pub pat_idx : ℕ
  pub reserved : ℕ
  pub page_base_addr : ℕ

-- `pt_entry_t`
pub record PtEntry : Type 0 where
  pub present : ℕ
  pub rw_enable : ℕ
  pub user_super : ℕ
  pub write_through : ℕ
  pub cache_disabled : ℕ
  pub accessed : ℕ
  pub dirty : ℕ
  pub pat_idx : ℕ
  pub global_page : ℕ
  pub available : ℕ
  pub page_base_addr : ℕ

-- The words that the bit fields lie in, the first field at bit 0.
abbrev pub small_word : SmallPage → ℕ
small_word p =
    p.present
    + p.rw_enable * 2
    + p.user_super * 2 ^ 2
    + p.write_through * 2 ^ 3
    + p.cache_disabled * 2 ^ 4
    + p.accessed * 2 ^ 5
    + p.reserved * 2 ^ 6
    + p.page_size * 2 ^ 7
    + p.global_page * 2 ^ 8
    + p.available * 2 ^ 9
    + p.page_table_base_addr * 2 ^ 12

abbrev pub big_word : BigPage → ℕ
big_word p =
    p.present
    + p.rw_enable * 2
    + p.user_super * 2 ^ 2
    + p.write_through * 2 ^ 3
    + p.cache_disabled * 2 ^ 4
    + p.accessed * 2 ^ 5
    + p.dirty * 2 ^ 6
    + p.page_size * 2 ^ 7
    + p.global_page * 2 ^ 8
    + p.available * 2 ^ 9
    + p.pat_idx * 2 ^ 12
    + p.reserved * 2 ^ 13
    + p.page_base_addr * 2 ^ 22

abbrev pub pt_word : PtEntry → ℕ
pt_word p =
    p.present
    + p.rw_enable * 2
    + p.user_super * 2 ^ 2
    + p.write_through * 2 ^ 3
    + p.cache_disabled * 2 ^ 4
    + p.accessed * 2 ^ 5
    + p.dirty * 2 ^ 6
    + p.pat_idx * 2 ^ 7
    + p.global_page * 2 ^ 8
    + p.available * 2 ^ 9
    + p.page_base_addr * 2 ^ 12
