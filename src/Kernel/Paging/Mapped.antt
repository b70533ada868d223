-- ===== src/Kernel/Paging/Mapped.antt =====
-- What `mem_map` of kernel/arch/i686/mem.c maps, where the page tables are there.
use Prim.Native.Nat.{bit_or}
use oldasternix.Prelude.{
  ◌>>=◌, ℕ, zero, suc, ◌+◌, ◌*◌, ◌/◌, ◌%◌, ◌^◌, ◌≤◌, ◌<◌, ◌≡◌, ◌≢◌, ◌⊎◌, inl, inr, Bool, Bool-cases,
  Option, true, false, ◌&&◌, refl, ap, ◌∙◌, some, ◌==◌, if◌then◌else◌, arith, Ends,
}
use oldasternix.Prelude.Word.{u32}
use oldasternix.Kernel.Paging.{
  Paging, page_directory, page_tables, table_frame, present, set_entry, map_page, map_loop,
  find_region, mem_map, is_virt_region_used,
}
use oldasternix.Kernel.Paging.Free.{AllTables, AllFree, is_virt_region_used-first}

-- Two pages of different directory entries have different tables, where both have one, and no table
-- of the first `limit` pages is the directory itself.
pub record IsProper (limit : ℕ) (p : Paging) : Type 0 where
  pub own : (page : ℕ) → page < limit → table_frame p page ≢ p.directory
  pub apart :
      (page other : ℕ)
      → page < limit
      → other < limit
      → page / 1024 ≢ other / 1024
      → present (page_directory p (page / 1024)) ≡ true
      → present (page_directory p (other / 1024)) ≡ true
      → table_frame p page ≢ table_frame p other

-- What a store to the entry of a page leaves: the frames, the directory, and the entries of all
-- other pages that have a table.
pub record Stored (limit page entry : ℕ) (p p' : Paging) : Type 0 where
  pub frames : p'.frames ≡ p.frames
  pub directory : p'.directory ≡ p.directory
  pub tables : (i : ℕ) → page_directory p' i ≡ page_directory p i
  pub here : page_tables p' page ≡ entry
  pub elsewhere :
      (other : ℕ)
      → other < limit
      → other ≢ page
      → present (page_directory p (other / 1024)) ≡ true
      → page_tables p' other ≡ page_tables p other

set_entry-Stored :
    (limit page entry : ℕ) (p : Paging)
    → IsProper limit p
    → page < limit
    → present (page_directory p (page / 1024)) ≡ true
    → Ends (set_entry page entry p) (Stored limit page entry p)
unfolding set_entry page_directory page_tables
set_entry-Stored limit page entry p proper inside there =
    let p' : Paging = record p {
      words = λ g i. if g == table_frame p page && (i == page % 1024) then entry else p.words g i;
    } in
    let own = proper.own page inside in
    let tables : (i : ℕ) → page_directory p' i ≡ page_directory p i = λ i. ground (arith, own) in
    let frame = λ (other : ℕ). ap (λ e. e / 4096) (tables (other / 1024)) in
    (
      p',
      rw there,
      record {
        frames = refl;
        directory = refl;
        tables = tables;
        here = ground (arith, frame page);
        elsewhere = λ other l differ has. elim (Bool-cases (page / 1024 == other / 1024)) [
          | inl same ↦
              let index : (other % 1024 == page % 1024) ≡ false = ground (arith, same, differ) in
              ground (arith, index, frame other)
          | inr different ↦
              let distinct : table_frame p page ≢ table_frame p other =
                proper.apart page other inside l (ground (arith, different)) there has in
              ground (arith, distinct, frame other)
        ];
      },
    )

-- What the mapping of `n` pages from `page` on to the memory from `phys` on leaves.
pub record Mapped (limit page n phys flags : ℕ) (p p' : Paging) : Type 0 where
  pub frames : p'.frames ≡ p.frames
  pub directory : p'.directory ≡ p.directory
  pub tables : (i : ℕ) → page_directory p' i ≡ page_directory p i
  pub region : (i : ℕ) → i < n → page_tables p' (page + i) ≡ bit_or (phys + i * 4096) flags
  pub elsewhere :
      (other : ℕ)
      → other < limit
      → (other < page) ⊎ (page + n ≤ other)
      → present (page_directory p (other / 1024)) ≡ true
      → page_tables p' other ≡ page_tables p other

IsProper-same :
    (limit : ℕ) (p p' : Paging)
    → IsProper limit p
    → p'.directory ≡ p.directory
    → ((i : ℕ) → page_directory p' i ≡ page_directory p i)
    → IsProper limit p'
IsProper-same limit p p' proper directory tables = record {
  own = λ page l. ground (arith, proper.own page l, tables (page / 1024), directory);
  apart = λ page other l l' differ has has'.
      let here = tables (page / 1024) in
      let there = tables (other / 1024) in
      let distinct = proper.apart page other l l' differ (rw here at has) (rw there at has') in
      ground (arith, distinct, here, there);
}

met :
    (b : Bool) (x y : Option Paging) (f : Paging → Option Paging)
    → b ≡ true
    → ((if b then x else y) >>= f) ≡ (x >>= f)
met b x y f h = rw h

map_page-present :
    (fuel page phys flags : ℕ) (p : Paging)
    → present (page_directory p (page / 1024)) ≡ true
    → map_page fuel page phys flags p ≡ set_entry page (bit_or phys flags) p
unfolding map_page
map_page-present fuel page phys flags p there =
    met (present (page_directory p (page / 1024))) (some p) _ (set_entry page (bit_or phys flags))
      there

-- A page and those behind it.
Mapped-then :
    (limit page n phys flags : ℕ) (p p1 p2 : Paging)
    → page + suc n ≤ limit
    → present (page_directory p (page / 1024)) ≡ true
    → Stored limit page (bit_or phys flags) p p1
    → Mapped limit (page + 1) n (phys + 4096) flags p1 p2
    → Mapped limit page (suc n) phys flags p p2
Mapped-then limit page n phys flags p p1 p2 inside there stored mapped = record {
  frames = mapped.frames ∙ stored.frames;
  directory = mapped.directory ∙ stored.directory;
  tables = λ i. mapped.tables i ∙ stored.tables i;
  region = region;
  elsewhere = λ other l out has.
      mapped.elsewhere other l (ground (arith, out)) (rw (stored.tables (other / 1024)) has)
      ∙ stored.elsewhere other l (ground (arith, out)) has;
}
  where
    region : (i : ℕ) → i < suc n → page_tables p2 (page + i) ≡ bit_or (phys + i * 4096) flags
    region zero l =
        let first : page + 0 ≡ page = omega arith in
        let at : phys + 0 * 4096 ≡ phys = omega arith in
        rw (first, at)
          (mapped.elsewhere page (omega arith) (inl (omega arith))
              (rw (stored.tables (page / 1024)) there)
            ∙ stored.here)
    region (suc i) l =
        let shift : page + 1 + i ≡ page + suc i = omega arith in
        let at : phys + 4096 + i * 4096 ≡ phys + suc i * 4096 = omega arith in
        rw (shift, at) at (mapped.region i (omega arith))

map_loop-Mapped :
    (limit fuel n page phys flags : ℕ) (p : Paging)
    → IsProper limit p
    → page + n ≤ limit
    → phys + n * 4096 < 2 ^ 32
    → AllTables n page p
    → Ends (map_loop fuel n page phys flags p) (Mapped limit page n phys flags p)
unfolding map_loop
map_loop-Mapped limit fuel zero page phys flags p proper inside small tables = (
  p,
  refl,
  record {
    frames = refl;
    directory = refl;
    tables = λ i. refl;
    region = λ i l. absurd (omega arith);
    elsewhere = λ other l out has. refl;
  },
)
map_loop-Mapped limit fuel (suc n) page phys flags p proper inside small tables =
    let first : page + 0 ≡ page = omega arith in
    let there : present (page_directory p (page / 1024)) ≡ true =
      rw first at (tables 0 (omega arith)) in
    let next : u32 (phys + 4096) ≡ phys + 4096 = omega arith in
    let (p1, e, stored) =
      set_entry-Stored limit page (bit_or phys flags) p proper (omega arith) there in
    let shift = λ (i : ℕ). (let s : page + 1 + i ≡ page + suc i = omega arith in s) in
    let tables1 : AllTables n (page + 1) p1 =
      λ i l. rw (stored.tables ((page + 1 + i) / 1024), shift i) (tables (suc i) (omega arith)) in
    let (p2, e', mapped) =
      map_loop-Mapped limit fuel n (page + 1) (phys + 4096) flags p1
        (IsProper-same limit p p1 proper stored.directory stored.tables) (omega arith) (omega arith)
        tables1 in
    let rest = λ (x : ℕ) (q : Paging). map_loop fuel n (page + 1) x flags q in
    (
      p2,
      ap (λ o. o >>= rest (u32 (phys + 4096))) (map_page-present fuel page phys flags p there ∙ e)
          ∙ ap (λ x. rest x p1) next
          ∙ e',
      Mapped-then limit page n phys flags p p1 p2 inside there stored mapped,
    )

find_region-free :
    (fuel k start n : ℕ) (p : Paging)
    → is_virt_region_used fuel start n p ≡ some (false, start)
    → find_region fuel (suc k) start n p ≡ some (some start)
unfolding find_region
find_region-free fuel k start n p e = rw e

-- `mem_map` of `n` free pages that have tables, from the page of `virt_min` on, runs to its end and
-- returns the address of that page: page `i` of the region then points to the memory `i` pages
-- behind `phys`, with the flags; the entries of all other pages that have a table, the page
-- directory and the bitmap of frames are as before. No table below `limit` is the directory itself,
-- different directory entries have different tables, the region ends below `limit`, at most 2^20,
-- `phys` is page-aligned, the memory ends below 2^32, and the fuel is more than the number of
-- pages.
pub mem_map-Mapped :
    (limit fuel virt_min n phys flags : ℕ) (p : Paging)
    → IsProper limit p
    → virt_min / 4096 + n ≤ limit
    → limit ≤ 2 ^ 20
    → n < fuel
    → phys % 4096 ≡ 0
    → phys + n * 4096 < 2 ^ 32
    → AllTables n (virt_min / 4096) p
    → AllFree n (virt_min / 4096) p
    → (p' : Paging) × (mem_map fuel virt_min n phys flags p
        ≡ some (u32 (virt_min / 4096 * 4096), p'))
      × Mapped limit (virt_min / 4096) n phys flags p p'
unfolding mem_map
mem_map-Mapped limit zero virt_min n phys flags p proper inside top enough aligned small tables
      free =
    absurd (omega arith)
mem_map-Mapped limit (suc fuel) virt_min n phys flags p proper inside top enough aligned small
      tables free =
    let start = virt_min / 4096 in
    let whole : (n == n) ≡ true = ground arith in
    let unused : is_virt_region_used (suc fuel) start n p ≡ some (false, start) =
      is_virt_region_used-first (suc fuel) start n n p (omega arith) (omega arith) (omega arith)
        tables free (rw whole refl)
      ∙ rw whole refl in
    let (p', e, mapped) =
      map_loop-Mapped limit (suc fuel) n start phys flags p proper inside small tables in
    let test : (phys % 4096 == 0) ≡ true = ground arith in
    (p', rw (test, find_region-free (suc fuel) fuel start n p unused, e), mapped)
