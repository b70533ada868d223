-- ===== src/Kernel/Paging/Free.antt =====
-- The search for a free region of pages, kernel/arch/i686/mem.c.
use Prim.Native.Nat.{bit_or}
use oldasternix.Prelude.{
  ℕ, zero, suc, ◌+◌, ◌-◌, ◌/◌, ◌^◌, ◌≤◌, ◌<◌, ◌≡◌, ◌⊎◌, inl, inr, Bool-cases, true, false, ◌||◌,
  none, some, ◌==◌, ltb, if◌then◌else◌, arith,
}
use oldasternix.Prelude.Bits.{bit_or-halves, bit_or-zero}
use oldasternix.Prelude.Word.{u32}
use oldasternix.Kernel.Paging.{
  Paging, page_directory, page_tables, present, region_loop, is_virt_region_used, mem_alloc,
}

-- The next `n` pages from `page` on have a table, and `i` of them are free.
abbrev pub AllTables : ℕ → ℕ → Paging → Type 0
AllTables n page p = (i : ℕ) → i < n → present (page_directory p ((page + i) / 1024)) ≡ true

abbrev pub AllFree : ℕ → ℕ → Paging → Type 0
AllFree n page p = (i : ℕ) → i < n → present (page_tables p (page + i)) ≡ false

region_loop-first :
    (k i page end : ℕ) (p : Paging)
    → i < k
    → end < 2 ^ 32
    → page + i ≤ end
    → AllTables (end - page) page p
    → AllFree i page p
    → (page + i == end || present (page_tables p (page + i))) ≡ true
    → region_loop k page end p ≡ some (if page + i == end then none else some (page + i))
unfolding region_loop
region_loop-first zero i page end p fuel small inside tables free stop = absurd (omega arith)
region_loop-first (suc k) zero page end p fuel small inside tables free stop =
    let here : page + 0 ≡ page = omega arith in
    let at_end : (page == end || present (page_tables p page)) ≡ true = rw here at stop in
    rw here (elim (Bool-cases (page == end)) [
      | inl ended ↦ let out : ltb page end ≡ false = ground arith in rw (ended, out)
      | inr more ↦
          let under : ltb page end ≡ true = ground arith in
          let table : present (page_directory p (page / 1024)) ≡ true =
            rw here at (tables 0 (ground arith)) in
          let taken : present (page_tables p page) ≡ true = rw more at at_end in
          rw (more, under, table, taken)
    ])
region_loop-first (suc k) (suc i) page end p fuel small inside tables free stop =
    let here : page + 0 ≡ page = omega arith in
    let under : ltb page end ≡ true = ground arith in
    let table : present (page_directory p (page / 1024)) ≡ true =
      rw here at (tables 0 (omega arith)) in
    let unused : present (page_tables p page) ≡ false = rw here at (free 0 (omega arith)) in
    let next : u32 (page + 1) ≡ page + 1 = omega arith in
    let shift = λ (j : ℕ). (let e : page + 1 + j ≡ page + suc j = omega arith in e) in
    let rest =
      region_loop-first k i (page + 1) end p (omega arith) small (omega arith)
        (λ j l. rw (shift j) (tables (suc j) (omega arith)))
        (λ j l. rw (shift j) (free (suc j) (omega arith))) (rw (shift i) stop) in
    rw (under, table, unused, next) (rw (shift i) at rest)

-- Where every page of the region has a table and the first `i` pages are free,
-- `is_virt_region_used` runs to its end with more fuel than `i`: if `i` is the length of the region
-- it reports it free, and if page `i` is used it reports it used with the page behind that one as
-- the next start. The region ends below 2^32.
pub is_virt_region_used-first :
    (fuel start_page n i : ℕ) (p : Paging)
    → i < fuel
    → i ≤ n
    → start_page + n < 2 ^ 32
    → AllTables n start_page p
    → AllFree i start_page p
    → (i == n || present (page_tables p (start_page + i))) ≡ true
    → is_virt_region_used fuel start_page n p
      ≡ some (if i == n then (false, start_page) else (true, start_page + i + 1))
unfolding is_virt_region_used
is_virt_region_used-first fuel start_page n i p enough inside small tables free stop =
    let whole : u32 (start_page + n) ≡ start_page + n = omega arith in
    let order : ltb (start_page + n) start_page ≡ false = ground arith in
    let length : start_page + n - start_page ≡ n = omega arith in
    let ends : (start_page + i == start_page + n) ≡ (i == n) = ground arith in
    let found =
      region_loop-first fuel i start_page (start_page + n) p enough (omega arith) (omega arith)
        (rw length tables) free (rw ends stop) in
    rw (whole, order, found, ends)
      (elim (Bool-cases (i == n)) [
        | inl free_all ↦ rw free_all
        | inr early ↦
            let no_wrap : u32 (start_page + i + 1) ≡ start_page + i + 1 = ground arith in
            rw (early, no_wrap)
      ])

-- Between a number and the sum with another.
bit_or-bounds : (bound a b : ℕ) → b ≤ bound → (b ≤ bit_or a b) × (bit_or a b ≤ a + b)
bit_or-bounds bound a zero l = let e = bit_or-zero a in (omega arith, omega (arith, e))
bit_or-bounds zero a (suc b) l = absurd (omega arith)
bit_or-bounds (suc bound) a (suc b) l =
    let (low, high) = bit_or-bounds bound (a / 2) (suc b / 2) (omega arith) in
    let whole = bit_or-halves a (suc b) in (omega (arith, low, whole), omega (arith, high, whole))

region_loop-skips :
    (fuel page end : ℕ) (p : Paging)
    → 1 < fuel
    → page < 2 ^ 20
    → end < 2 ^ 20
    → present (page_directory p (page / 1024)) ≡ false
    → region_loop fuel page end p ≡ some none
unfolding region_loop
region_loop-skips zero page end p enough low small absent = absurd (omega arith)
region_loop-skips (suc zero) page end p enough low small absent = absurd (omega arith)
region_loop-skips (suc (suc k)) page end p enough low small absent =
    let (least, most) = bit_or-bounds 4190208 page 4190208 (omega arith) in
    let over : ltb (u32 (bit_or page 4190208 + 1)) end ≡ false = ground arith in
    rw (absent, over)
      (elim (Bool-cases (ltb page end)) [ inl under ↦ rw under | inr done ↦ rw done ])

-- Where the first page of a region has no table, `is_virt_region_used` reports the whole region
-- free, whatever is mapped behind it: it leaves more than that table out. The region ends below
-- page 2^20, and there are two rounds of fuel.
pub is_virt_region_used-skips :
    (fuel start_page n : ℕ) (p : Paging)
    → 1 < fuel
    → start_page + n < 2 ^ 20
    → present (page_directory p (start_page / 1024)) ≡ false
    → is_virt_region_used fuel start_page n p ≡ some (false, start_page)
unfolding is_virt_region_used
is_virt_region_used-skips fuel start_page n p enough small absent =
    let whole : u32 (start_page + n) ≡ start_page + n = omega arith in
    let order : ltb (start_page + n) start_page ≡ false = ground arith in
    rw (
      whole,
      order,
      region_loop-skips fuel start_page (start_page + n) p enough (omega arith) (omega arith)
          absent,
    )

-- The region has tables, and page `i` of it is the first one that is used.
abbrev pub IsTaken : ℕ → ℕ → ℕ → Paging → Type 0
IsTaken i n page p =
    (i < n) × AllTables n page p × AllFree i page p × (present (page_tables p (page + i)) ≡ true)

-- `mem_alloc` returns a null pointer and changes nothing when the region reaches beyond its limit,
-- or when a page of it is used (its pages have tables, and page `i` is the first used one). The
-- fuel is more than the number of pages, and the region ends below 2^32.
pub mem_alloc-refuses :
    (fuel virt virt_end_max n i flags : ℕ) (p : Paging)
    → virt / 4096 + n < 2 ^ 32
    → n < fuel
    → (virt_end_max / 4096 < virt / 4096 + n) ⊎ IsTaken i n (virt / 4096) p
    → mem_alloc fuel virt virt_end_max n flags p ≡ some (0, p)
unfolding mem_alloc
mem_alloc-refuses fuel virt virt_end_max n i flags p small enough (inl beyond) =
    let whole : u32 (virt / 4096 + n) ≡ virt / 4096 + n = omega arith in
    let out : ltb (virt_end_max / 4096) (virt / 4096 + n) ≡ true = ground arith in rw (whole, out)
mem_alloc-refuses fuel virt virt_end_max n i flags p small enough (inr (l, tables, free, used)) =
    let early : (i == n) ≡ false = ground arith in
    let found =
      is_virt_region_used-first fuel (virt / 4096) n i p (omega arith) (omega arith) small tables
        free (rw (early, used)) in
    elim (Bool-cases (ltb (virt_end_max / 4096) (u32 (virt / 4096 + n)))) [
      | inl beyond ↦ rw beyond
      | inr room ↦ rw (room, found, early)
    ]
