-- ===== src/Kernel/Frames.antt =====
-- The frames of physical memory: the bitmap of kernel/arch/i686/mem.c and what uses it alone. The
-- source's bitmap has 65535 bytes, for the frames below 0x7fff8000. `none` is an access behind them,
-- which the source does not prevent, or that the fuel of a loop ran out: there are 2^20 frames.
pub mod Marks
pub mod Alloc
pub mod Regions
pub mod Choice
mod Tests
use oldasternix.Prelude.{
  ◌>>=◌, ℕ, zero, suc, ◌+◌, ◌-◌, ◌*◌, ◌/◌, ◌%◌, ◌^◌, Bool, true, false, ◌&&◌, not, Option, none,
  some, [], ◌==◌, ltb, leb, if◌then◌else◌,
}
use oldasternix.Prelude.Bytes.{has_bit, set_bit, clear_bit}
use oldasternix.Prelude.Text.{bytes_of}
use oldasternix.Prelude.Word.{u32}
use oldasternix.Kernel.Machine.{Machine}
use oldasternix.Libc.Stdio.{say}

abbrev pub page_size : ℕ
page_size = 4096

abbrev pub prot_phys_start : ℕ
prot_phys_start = 0x00100000

abbrev pub prot_phys_end : ℕ
prot_phys_end = 0x00f00000

-- `phys_page_bitmap`, `lower_bound` and `upper_bound`.
pub record Frames : Type 0 where
  pub machine : Machine
  pub bitmap : ℕ → ℕ
  pub lower_bound : ℕ
  pub upper_bound : ℕ

-- The bytes of `phys_page_bitmap`.
abbrev pub bitmap_size : ℕ
bitmap_size = 65535

-- The statics before any call.
abbrev pub unused : Machine → Frames
unused w = record {
  machine = w;
  bitmap = λ i. 0;
  lower_bound = prot_phys_start;
  upper_bound = prot_phys_end;
}

-- A bit of the bitmap.
pub is_marked : ℕ → Frames → Bool
is_marked phys f = has_bit (f.bitmap (phys / page_size / 8)) (phys / page_size % 8)

unfoldable pub mark : ℕ → Bool → Frames → Frames
mark phys used f =
    let byte = phys / page_size / 8 in
    let bit = phys / page_size % 8 in
    let v = f.bitmap byte in
    let v = if used then set_bit v bit else clear_bit v bit in
    record f { bitmap = λ i. if i == byte then v else f.bitmap i }

-- Reading and writing it, inside the array.
pub is_phys_used : ℕ → Frames → Option Bool
is_phys_used phys f =
    if ltb (phys / page_size / 8) bitmap_size then some (is_marked phys f) else none

unfoldable pub set_phys_used : ℕ → Bool → Frames → Option Frames
set_phys_used phys used f =
    if ltb (phys / page_size / 8) bitmap_size then some (mark phys used f) else none

-- The loop of `alloc_phys`.
pub alloc_loop : ℕ → ℕ → Frames → Option (ℕ × Frames)
alloc_loop zero ret f = none
alloc_loop (suc k) ret f =
    let rest = alloc_loop k (u32 (ret + page_size)) f in
    if ltb ret f.upper_bound
    then (do
      taken ← is_phys_used ret f
      if taken then rest else (do f ← set_phys_used ret true f; some (ret, f)))
    else (do
      w ← say (bytes_of "err: mem: out of memory (phys)\n") [] f.machine
      some (2 ^ 32 - 1, record f { machine = w }))

pub alloc_phys : ℕ → Frames → Option (ℕ × Frames)
unfolding alloc_loop
alloc_phys fuel f = alloc_loop fuel f.lower_bound f

-- The loop of `mem_init_regions`; it ends at 2^20.
pub init_loop : ℕ → ℕ → Frames → Option Frames
init_loop zero page f = some f
init_loop (suc k) page f =
    let rest = (do f ← set_phys_used page true f; init_loop k (page + page_size) f) in
    if ltb page 0x100000 then rest else some f

pub mem_init_regions : ℕ → ℕ → Frames → Option Frames
unfolding init_loop
mem_init_regions lower upper f = do
  f ← init_loop 256 (lower - lower % 4096) f
  some (record f { upper_bound = u32 (0x100000 + upper); lower_bound = 0 })

-- The loop of `mem_set_used`.
pub set_used_loop : ℕ → ℕ → ℕ → Frames → Option Frames
set_used_loop zero page max f = none
set_used_loop (suc k) page max f = do
  f ← set_phys_used page true f
  let page = u32 (page + page_size)
  let rest = set_used_loop k page max f
  if ltb page max && not (page == 0) then rest else some f

pub mem_set_used : ℕ → ℕ → ℕ → Frames → Option Frames
unfolding set_used_loop
mem_set_used fuel phys min_size f =
    if ltb (2 ^ 32 - 1) phys
    then some f
    else (let max = (phys + min_size) % 2 ^ 64 in
        let max = if ltb (2 ^ 32 - 1) max then 2 ^ 32 - 1 else max in
        set_used_loop fuel (phys - phys % 4096) max f)

-- The loop of `mem_init`; `kernel_start`, `kernel_end` and `offset` are the linker's symbols.
unfoldable pub kernel_loop : ℕ → ℕ → ℕ → ℕ → Frames → Option Frames
kernel_loop zero phys kernel_end offset f = none
kernel_loop (suc k) phys kernel_end offset f =
    let rest = (do
      f ← set_phys_used (u32 (phys + 2 ^ 32 - offset)) true f
      kernel_loop k (u32 (phys + page_size)) kernel_end offset f) in
    if ltb phys kernel_end then rest else some f

unfoldable pub mem_init : ℕ → ℕ → ℕ → ℕ → Frames → Option Frames
unfolding kernel_loop
mem_init fuel kernel_start kernel_end offset f =
    kernel_loop fuel (kernel_start - kernel_start % 4096) kernel_end offset f
