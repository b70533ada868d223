-- ===== src/Kernel/Paging/Tests.antt =====
-- The theorems on pages at a concrete page directory.
use oldasternix.Prelude.{
  zero, suc, ◌+◌, ◌/◌, ◌≡◌, refl, true, false, some, inr, ◌==◌, ◌&&◌, if◌then◌else◌, arith,
}
use oldasternix.Kernel.Frames.{unused}
use oldasternix.Kernel.Machine.{at_boot}
use oldasternix.Kernel.Paging.{
  Paging, page_directory, page_tables, is_virt_region_used, mem_alloc, mem_map, default_page_flags,
}
use oldasternix.Kernel.Paging.Mapped.{IsProper, Mapped, mem_map-Mapped}
use oldasternix.Kernel.Paging.Free.{
  AllTables, AllFree, is_virt_region_used-first, is_virt_region_used-skips, mem_alloc-refuses,
}

-- One table, frame 9, of which pages 0 and 3 are used.
abbrev one_table : Paging
one_table = record {
  frames = unused (at_boot (λ a. 65) 10_000 753_664);
  words = λ g i.
      if g == 8 && (i == 0)
      then 0x9007
      else if g == 9 && (i == 0)
      then 0x5003
      else if g == 9 && (i == 3)
      then 0x6003
      else 0;
  directory = 8;
}

one_table-AllTables : AllTables 5 1 one_table
unfolding page_directory
one_table-AllTables i l = let first : (1 + i) / 1024 ≡ 0 = omega arith in rw first refl

one_table-AllFree : AllFree 2 1 one_table
unfolding page_directory page_tables
one_table-AllFree zero l = refl
one_table-AllFree (suc zero) l = refl
one_table-AllFree (suc (suc i)) l = absurd (omega arith)

is_virt_region_used-first_example : is_virt_region_used 9 1 5 one_table ≡ some (true, 4)
is_virt_region_used-first_example =
    is_virt_region_used-first 9 1 5 2 one_table (omega arith) (omega arith) (omega arith)
      one_table-AllTables one_table-AllFree (unfold page_tables page_directory in refl)

-- Page 2000 has no table, and the search ends there.
is_virt_region_used-skips_example : is_virt_region_used 9 2000 5000 one_table ≡ some (false, 2000)
is_virt_region_used-skips_example =
    is_virt_region_used-skips 9 2000 5000 one_table (omega arith) (omega arith)
      (unfold page_directory in refl)

mem_alloc-refuses_example :
    mem_alloc 9 4096 0x100000 5 default_page_flags one_table ≡ some (0, one_table)
mem_alloc-refuses_example =
    mem_alloc-refuses 9 4096 0x100000 5 2 default_page_flags one_table (omega arith) (omega arith) (
      inr (
        omega arith,
        one_table-AllTables,
        one_table-AllFree,
        (unfold page_tables page_directory in refl),
      ))

-- Every page below 1024 has the one table, which is not the directory.
one_table-IsProper : IsProper 1024 one_table
unfolding page_directory
one_table-IsProper = record {
  own = λ page l e.
      (let first : page / 1024 ≡ 0 = omega arith in
        let nine : page_directory one_table (page / 1024) ≡ 0x9007 = rw first refl in
        omega (arith, nine, e));
  apart = λ page other l l' differ has has' e. differ (omega arith);
}

mem_map-Mapped_example :
    (p' : Paging) × (mem_map 9 4096 2 0x200000 3 one_table ≡ some (4096, p'))
    × Mapped 1024 1 2 0x200000 3 one_table p'
mem_map-Mapped_example =
    mem_map-Mapped 1024 9 4096 2 0x200000 3 one_table one_table-IsProper (omega arith) (omega arith)
      (omega arith) (omega arith) (omega arith) (λ i l. one_table-AllTables i (omega arith))
      one_table-AllFree
