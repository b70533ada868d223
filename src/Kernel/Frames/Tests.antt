-- ===== src/Kernel/Frames/Tests.antt =====
-- The theorems on frames at concrete bitmaps.
use oldasternix.Prelude.{
  ℕ, zero, suc, ◌*◌, ◌^◌, ◌≡◌, refl, true, false, some, ◌||◌, ◌==◌, if◌then◌else◌, arith, Ends,
}
use oldasternix.Kernel.Frames.{Frames, unused, is_marked, is_phys_used, alloc_phys, mem_set_used}
use oldasternix.Kernel.Frames.Alloc.{AllUsed, alloc_phys-lowest}
use oldasternix.Kernel.Frames.Marks.{IsBytes, mem_set_used-in_region}
use oldasternix.Kernel.Machine.{Machine, at_boot}

abbrev start : Machine
start = at_boot (λ a. 65) 10_000 753_664

-- The first frame of upper memory is used, and the next is free.
abbrev one_used : Frames
one_used = record (unused start) { bitmap = λ i. if i == 32 then 1 else 0 }

one_used-AllUsed : AllUsed 1 one_used.lower_bound one_used
unfolding is_phys_used is_marked
one_used-AllUsed zero l = refl
one_used-AllUsed (suc i) l = absurd (omega arith)

alloc_phys-lowest_example : Ends (alloc_phys 5 one_used) (λ r.
    (r.0 ≡ 0x101000)
    × ((q : ℕ)
        → is_phys_used (q * 4096) r.1
          ≡ (if 257 == q then some true else is_phys_used (q * 4096) one_used)))
unfolding is_phys_used is_marked
alloc_phys-lowest_example =
    alloc_phys-lowest 5 1 one_used (omega arith) (λ i. ground arith) one_used-AllUsed (omega arith)
      (omega arith) refl

mem_set_used-in_region_example :
    Ends
      (mem_set_used (2 ^ 20) 5000 9000 one_used)
      (λ f'. IsBytes f' × (is_phys_used (3 * 4096) f' ≡ some (true || false)))
unfolding is_phys_used is_marked
mem_set_used-in_region_example =
    mem_set_used-in_region (2 ^ 20) 5000 9000 3 one_used false (omega arith) (λ i. ground arith)
      (omega arith) (omega arith) refl
