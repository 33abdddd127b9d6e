-- ===== src/Paging/Tests.antt =====
-- The theorem on the tables of student-distrib/paging_c.c at concrete addresses.
use linux_based_os.Prelude.{◌≡◌, refl, arith, false, some}
use linux_based_os.Paging.{Paging, init_paging}
use linux_based_os.Paging.Walk.{walk, IsLinked, init_paging-mapped}

-- Empty tables, before paging is on.
abbrev off : Paging
off = record {
  page_directory = λ k. 0;
  page_table_0 = λ k. 0;
  page_table_1 = λ k. 0;
  directory_loaded = false;
  size_extensions = false;
  global_pages = false;
  paging = false;
}

linked : IsLinked 0x406000 0x407000
linked = record {
  fits_0 = omega arith;
  fits_1 = omega arith;
  aligned_0 = refl;
  aligned_1 = refl;
  apart = omega arith;
}

-- The first byte of a program.
init_paging-mapped_example :
    walk 0x406000 0x407000 (λ a k. 0) (init_paging 0x406000 0x407000 off) 0x08048000 ≡ some 0x48000
init_paging-mapped_example =
    init_paging-mapped 0x406000 0x407000 (λ a k. 0) off 0x08048000 linked (omega arith)
