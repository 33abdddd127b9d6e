-- ===== src/Paging.antt =====
-- The page tables of student-distrib/paging_c.c. A table is its words by index; where the linker
-- puts the two page tables is an argument.
pub mod Entries
pub mod Tables
pub mod Walk
mod Tests
use linux_based_os.Prelude.{
  ℕ, zero, suc, ◌+◌, ◌-◌, ◌*◌, ◌/◌, ◌%◌, ◌^◌, Bool, true, false, leb, ◌==◌, if◌then◌else◌, update,
  bit_and, Option, none, some,
}
use linux_based_os.Paging.Entries.{SmallPage, BigPage, PtEntry, small_word, big_word, pt_word}

-- The tables, and what the routines of paging.S have switched on.
pub record Paging : Type 0 where
  pub page_directory : ℕ → ℕ
  pub page_table_0 : ℕ → ℕ
  pub page_table_1 : ℕ → ℕ
  pub directory_loaded : Bool
  pub size_extensions : Bool
  pub global_pages : Bool
  pub paging : Bool

abbrev pub vid_addr : ℕ
vid_addr = 0x000B8000

abbrev pub ker_addr : ℕ
ker_addr = 0x00400000

abbrev pub pro_addr : ℕ
pro_addr = 32

abbrev pub user_vmem : ℕ
user_vmem = 33

abbrev pub twenty_msb : ℕ
twenty_msb = 0xFFFFF000

abbrev pub ten_msb : ℕ
ten_msb = 0xFFC00000

-- The loops that clear a table; an entry that is a cleared global is 0.
unfoldable pub clear_table : ℕ → ℕ → (ℕ → ℕ) → ℕ → ℕ
clear_table zero it table = table
clear_table (suc left) it table = clear_table left (it + 1) (update table it 0)

-- A page of video memory, for the kernel (0) or for programs (1).
abbrev pub video_page : ℕ → PtEntry
video_page user = record {
  present = 1;
  rw_enable = 1;
  user_super = user;
  write_through = 0;
  cache_disabled = 0;
  accessed = 0;
  dirty = 0;
  pat_idx = 0;
  global_page = 0;
  available = 0;
  page_base_addr = bit_and twenty_msb vid_addr / 2 ^ 12;
}

-- The directory entry of a page table at `addr`, for the kernel (0) or for programs (1).
abbrev pub table_entry : ℕ → ℕ → SmallPage
table_entry user addr = record {
  present = 1;
  rw_enable = 1;
  user_super = user;
  write_through = 0;
  cache_disabled = 0;
  accessed = 0;
  reserved = 0;
  page_size = 0;
  global_page = 0;
  available = 0;
  page_table_base_addr = bit_and twenty_msb addr / 2 ^ 12;
}

abbrev pub kernel_page : BigPage
kernel_page = record {
  present = 1;
  rw_enable = 1;
  user_super = 0;
  write_through = 0;
  cache_disabled = 1;
  accessed = 0;
  dirty = 0;
  page_size = 1;
  global_page = 1;
  available = 0;
  pat_idx = 0;
  reserved = 0;
  page_base_addr = bit_and ten_msb ker_addr / 2 ^ 22;
}

abbrev pub program_page : BigPage
program_page = record {
  present = 1;
  rw_enable = 1;
  user_super = 1;
  write_through = 0;
  cache_disabled = 1;
  accessed = 0;
  dirty = 0;
  page_size = 1;
  global_page = 0;
  available = 0;
  pat_idx = 0;
  reserved = 0;
  page_base_addr = 0;
}

unfoldable pub init_paging : ℕ → ℕ → Paging → Paging
init_paging table_0 table_1 p =
    let pt_0 = small_word (table_entry 0 table_0) in
    let d0 = update (clear_table 1024 0 p.page_directory) 0 pt_0 in
    let d1 = update d0 1 (big_word kernel_page) in
    let d2 = update d1 pro_addr (big_word program_page) in
    let d3 = update d2 user_vmem (small_word (table_entry 1 table_1)) in
    record {
      page_directory = update d3 0 pt_0;
      page_table_0 =
          update (clear_table 1024 0 p.page_table_0) (bit_and twenty_msb vid_addr / 2 ^ 12)
            (pt_word (video_page 0));
      page_table_1 =
          update p.page_table_1 (bit_and twenty_msb vid_addr / 2 ^ 12) (pt_word (video_page 1));
      directory_loaded = true;
      size_extensions = true;
      global_pages = true;
      paging = true;
    }

-- The words of the table at an address; `elsewhere` is the memory that holds no page table.
unfoldable pub table_at : ℕ → ℕ → (ℕ → ℕ → ℕ) → Paging → ℕ → ℕ → ℕ
table_at table_0 table_1 elsewhere p addr =
    if addr == table_0
    then p.page_table_0
    else if addr == table_1
    then p.page_table_1
    else elsewhere addr

-- The address of a page table entry, or `none` for a null pointer.
unfoldable pub get_page_table_entry : ℕ → ℕ → (ℕ → ℕ → ℕ) → Paging → ℕ → ℕ → Option ℕ
get_page_table_entry table_0 table_1 elsewhere p dir_idx table_idx =
    if leb 1024 dir_idx
    then none
    else if leb 1024 table_idx
    then none
    else if p.page_directory dir_idx % 2 == 0
    then none
    else if table_at table_0 table_1 elsewhere p (p.page_directory dir_idx / 2 ^ 12 * 2 ^ 12)
            table_idx
          % 2
        == 0
    then none
    else some (p.page_directory dir_idx / 2 ^ 12 * 2 ^ 12 + 4 * table_idx)

-- The index of a big page in the directory, or `none` for a null pointer.
unfoldable pub get_big_page : Paging → ℕ → Option ℕ
get_big_page p dir_idx =
    if leb 1024 dir_idx
    then none
    else if p.page_directory dir_idx % 2 == 0
    then none
    else some dir_idx
