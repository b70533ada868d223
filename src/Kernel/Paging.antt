-- ===== src/Kernel/Paging.antt =====
-- The page tables, kernel/arch/i686/mem.c. The last entry of the page directory points to the
-- directory itself, so the array `page_tables` at 0xffc00000 reaches every table through it.
pub mod Free
pub mod Mapped
mod Tests
use Prim.Native.Nat.{bit_and, bit_or}
use oldasternix.Prelude.{
  ◌>>=◌, ℕ, zero, suc, ◌+◌, ◌-◌, ◌*◌, ◌/◌, ◌%◌, ◌^◌, Bool, true, false, not, Option, none, some, [],
  ◌∷◌, ◌==◌, List, ltb, ◌&&◌, if◌then◌else◌,
}
use oldasternix.Prelude.Text.{bytes_of}
use oldasternix.Prelude.Word.{u32}
use oldasternix.Kernel.Machine.{Machine}
use oldasternix.Kernel.Frames.{Frames, page_size, alloc_phys}
use oldasternix.Libc.Stdio.{Arg, say, word}

abbrev pub huge_page_size : ℕ
huge_page_size = 4194304

-- `enum page_flags`.
abbrev pub pg_pres : ℕ
pg_pres = 1

abbrev pub pg_rw : ℕ
pg_rw = 2

abbrev pub pg_us : ℕ
pg_us = 4

abbrev pub default_page_flags : ℕ
default_page_flags = bit_or pg_pres pg_rw

abbrev pub page_directory_flags : ℕ
page_directory_flags = bit_or (bit_or pg_pres pg_rw) pg_us

-- Physical memory as words by frame and index, and the frame of the page directory.
pub record Paging : Type 0 where
  pub frames : Frames
  pub words : ℕ → ℕ → ℕ
  pub directory : ℕ

-- `page_directory[i]` and `page_tables[page]`, as the processor finds them.
unfoldable pub page_directory : Paging → ℕ → ℕ
page_directory p i = p.words p.directory i

abbrev pub table_frame : Paging → ℕ → ℕ
table_frame p page = page_directory p (page / 1024) / 4096

unfoldable pub page_tables : Paging → ℕ → ℕ
page_tables p page = p.words (table_frame p page) (page % 1024)

abbrev pub present : ℕ → Bool
present entry = not (bit_and entry pg_pres == 0)

-- The loop of `is_virt_region_used` from `page` on: the used page that it finds, if any. (The source
-- sets low bits of the number of a page as if it were an address.)
unfoldable pub region_loop : ℕ → ℕ → ℕ → Paging → Option (Option ℕ)
unfolding page_directory page_tables
region_loop zero page end_page p = none
region_loop (suc k) page end_page p =
    let skipped = bit_or page (huge_page_size - 1 - 4095) in
    let rest = region_loop k (u32 (page + 1)) end_page p in
    let rest_skipped = region_loop k (u32 (skipped + 1)) end_page p in
    if ltb page end_page
    then (if not (present (page_directory p (page / 1024)))
        then rest_skipped
        else if present (page_tables p page)
        then some (some page)
        else rest)
    else some none

-- The result, and the new `*start_page`.
unfoldable pub is_virt_region_used : ℕ → ℕ → ℕ → Paging → Option (Bool × ℕ)
unfolding region_loop
is_virt_region_used fuel start_page n p =
    let end_page = u32 (start_page + n) in
    if ltb end_page start_page then some (true, 0) else (do
      found ← region_loop fuel start_page end_page p
      elim found [ none ↦ some (false, start_page) | some page ↦ some (true, u32 (page + 1)) ])

-- A store to `page_tables[page]`: `none` is a page fault.
unfoldable pub set_entry : ℕ → ℕ → Paging → Option Paging
unfolding page_directory
set_entry page entry p =
    let frame = table_frame p page in
    if present (page_directory p (page / 1024))
    then some (record p {
      words = λ g i. if g == frame && (i == page % 1024) then entry else p.words g i;
    })
    else none

-- The `memset` of a page of entries from `page_tables[page]` on, with the entries left.
pub clear_entries : ℕ → ℕ → Paging → Option Paging
unfolding set_entry
clear_entries zero page p = some p
clear_entries (suc k) page p = do p ← set_entry page 0 p; clear_entries k (page + 1) p

-- A round of the second loop of `mem_map`.
unfoldable pub map_page : ℕ → ℕ → ℕ → ℕ → Paging → Option Paging
unfolding set_entry clear_entries page_directory
map_page fuel page phys flags p = do
  p ← if present (page_directory p (page / 1024)) then some p else (do
    (table, frames) ← alloc_phys fuel p.frames
    let entry = bit_or table page_directory_flags
    clear_entries 1024 page (record p {
      frames = frames;
      words = λ g i. if g == p.directory && (i == page / 1024) then entry else p.words g i;
    }))
  set_entry page (bit_or phys flags) p

unfoldable pub map_loop : ℕ → ℕ → ℕ → ℕ → ℕ → Paging → Option Paging
unfolding map_page
map_loop fuel zero page phys flags p = some p
map_loop fuel (suc k) page phys flags p = do
  p ← map_page fuel page phys flags p
  map_loop fuel k (page + 1) (u32 (phys + page_size)) flags p

-- The first loop of `mem_map`, which looks for a free region: its first page, if there is one. The
-- rounds and the pages that each looks at take fuel.
unfoldable pub find_region : ℕ → ℕ → ℕ → ℕ → Paging → Option (Option ℕ)
unfolding is_virt_region_used
find_region fuel zero page_start n p = none
find_region fuel (suc k) page_start n p = do
  (taken, page) ← is_virt_region_used fuel page_start n p
  elim taken [
    | false ↦ some (some page)
    | true ↦ if page == 0 then some none else find_region fuel k page n p
  ]

-- A message, and the null pointer that is returned behind it.
abbrev pub refuse : List ℕ → List Arg → Paging → Option (ℕ × Paging)
refuse format args p = do
  w ← say format args p.frames.machine
  some (0, record p { frames = record (p.frames) { machine = w } })

unfoldable pub mem_map : ℕ → ℕ → ℕ → ℕ → ℕ → Paging → Option (ℕ × Paging)
unfolding find_region map_loop
mem_map fuel virt_min n phys flags p =
    if not (phys % page_size == 0)
    then refuse (bytes_of "err: mem: physical address not page aligned: 0x%x\n") (word phys ∷ []) p
    else (do
      found ← find_region fuel fuel (virt_min / page_size) n p
      elim found [
        | none ↦ refuse (bytes_of "err: mem: out of memory (virt)\n") [] p
        | some page_start ↦ (do
          p ← map_loop fuel n page_start phys flags p
          some (u32 (page_start * page_size), p))
      ])

pub mem_map_range : ℕ → ℕ → ℕ → ℕ → ℕ → Paging → Option (ℕ × Paging)
unfolding mem_map
mem_map_range fuel virt_min phys_start phys_end flags p =
    if ltb phys_end phys_start
    then refuse (bytes_of "err: mem: invalid region: %08X..%08X")
        (word phys_start ∷ word phys_end ∷ []) p
    else (let page_offset = phys_start % 4096 in
        let n = u32 (phys_end - phys_start + 4095) / page_size in
        do
          (start, p) ← mem_map fuel virt_min n (phys_start - page_offset) flags p
          some (u32 (start + page_offset), p))

-- The loop of `mem_alloc`, with the pages left.
pub alloc_pages : ℕ → ℕ → ℕ → ℕ → Paging → Option Paging
unfolding mem_map
alloc_pages fuel zero page flags p = some p
alloc_pages fuel (suc k) page flags p = do
  (phys, frames) ← alloc_phys fuel p.frames
  (_, p) ← mem_map fuel (u32 (page * page_size)) 1 phys flags (record p { frames = frames })
  alloc_pages fuel k (page + 1) flags p

pub mem_alloc : ℕ → ℕ → ℕ → ℕ → ℕ → Paging → Option (ℕ × Paging)
unfolding is_virt_region_used alloc_pages
mem_alloc fuel virt virt_end_max n flags p =
    let page_start = virt / page_size in
    if ltb (virt_end_max / page_size) (u32 (page_start + n)) then some (0, p) else (do
      (taken, _) ← is_virt_region_used fuel page_start n p
      if taken then some (0, p) else (do p ← alloc_pages fuel n page_start flags p; some (virt, p)))
