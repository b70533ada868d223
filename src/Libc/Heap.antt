-- ===== src/Libc/Heap.antt =====
-- The kernel's heap, libc/arch/i686/malloc.c. Headers are a function of their address; a store to a
-- header at the null pointer, where nothing is mapped, is `none`, as is fuel that ran out.
pub mod Search
pub mod Blocks
mod Tests
use Prim.Native.Nat.{bit_and, bit_or}
use oldasternix.Prelude.{
  ◌>>=◌, ℕ, zero, suc, ◌+◌, ◌-◌, ◌*◌, ◌/◌, ◌%◌, Bool, true, false, not, ◌&&◌, ◌||◌, Option, none,
  some, ◌==◌, ltb, leb, if◌then◌else◌,
}
use oldasternix.Prelude.Word.{u32}
use oldasternix.Kernel.Frames.{page_size}
use oldasternix.Kernel.Paging.{Paging, default_page_flags, mem_alloc}

-- `enum alloc_status`.
abbrev pub used : ℕ
used = 1

abbrev pub end_of_memory : ℕ
end_of_memory = 2

abbrev pub k_mem_heap_start : ℕ
k_mem_heap_start = 0xd0000000

abbrev pub k_mem_heap_end : ℕ
k_mem_heap_end = 0xefffffff

-- `struct alloc_header`, and the 16 bytes that it takes.
pub record Header : Type 0 where
  pub status : ℕ
  pub size : ℕ
  pub prev_header : ℕ

abbrev pub header_size : ℕ
header_size = 16

pub record Heap : Type 0 where
  pub first_hdr : ℕ
  pub headers : ℕ → Header
  pub paging : Paging

abbrev pub set_header : ℕ → Header → Heap → Heap
set_header p hdr h = record h { headers = λ a. if a == p then hdr else h.headers a }

abbrev pub has : ℕ → Header → Bool
has flag hdr = not (bit_and hdr.status flag == 0)

abbrev pub drop_flag : ℕ → ℕ → ℕ
drop_flag flag status = bit_and status (255 - flag)

abbrev pub find_next_hdr : ℕ → Heap → ℕ
find_next_hdr hdr h = u32 (hdr + header_size + (h.headers hdr).size)

-- The block cannot take `size` bytes.
abbrev pub unfit : ℕ → Header → Bool
unfit size hdr = has used hdr || ltb hdr.size size

-- The loop of `malloc` that looks for a block.
pub search : ℕ → ℕ → ℕ → Heap → Option ℕ
search zero hdr size h = none
search (suc k) hdr size h =
    let rest = search k (find_next_hdr hdr h) size h in
    if not (hdr == 0) && unfit size (h.headers hdr) && not (has end_of_memory (h.headers hdr))
    then rest
    else some hdr

-- More heap: the new block, behind `hdr`.
pub grow : ℕ → ℕ → ℕ → Heap → Option (ℕ × Heap)
grow fuel hdr size h =
    let n = u32 (size + header_size) / page_size + 1 in
    let at = if hdr == 0 then k_mem_heap_start else find_next_hdr hdr h in
    do
      (new_hdr, p) ← mem_alloc fuel at k_mem_heap_end n default_page_flags h.paging
      let block : Header = record {
        status = end_of_memory;
        size = u32 (n * page_size + 4294967280);
        prev_header = hdr;
      }
      let h = set_header new_hdr block (record h { paging = p })
      let last = h.headers hdr
      if new_hdr == 0
          then none
          else if hdr == 0
          then some (new_hdr, record h { first_hdr = new_hdr })
          else some (
            new_hdr,
            set_header hdr (record last { status = drop_flag end_of_memory last.status }) h,
          )

-- The end of `malloc`: the block is marked used, and split if it is much larger.
pub take_block : ℕ → ℕ → Heap → Heap
take_block hdr size h =
    let b = h.headers hdr in
    let status = bit_or b.status used in
    let next_hdr = u32 (hdr + header_size + size) in
    let next_block : Header = record {
      status = if has end_of_memory b then end_of_memory else 0;
      size = u32 (b.size + 4294967296 - u32 (size + header_size));
      prev_header = hdr;
    } in
    let next_next = u32 (next_hdr + header_size + next_block.size) in
    let split = set_header next_hdr next_block (
      set_header hdr
        (record b {
          status = if has end_of_memory b then drop_flag end_of_memory status else status;
          size = size;
        })
        h) in
    if leb (u32 (size + 2 * header_size)) b.size
    then (if has end_of_memory b
        then split
        else set_header next_next (record (split.headers next_next) { prev_header = next_hdr })
            split)
    else set_header hdr (record b { status = status }) h

-- `size` rounded up to a multiple of 16.
abbrev pub round_up : ℕ → ℕ
round_up size = let s = u32 (size + 15) in s - s % 16

pub malloc : ℕ → ℕ → Heap → Option (ℕ × Heap)
unfolding search grow take_block
malloc fuel size h = do
  let size = round_up size
  hdr ← search fuel h.first_hdr size h
  let b = h.headers hdr
  (hdr, h) ←
      if hdr == 0 || (unfit size b && has end_of_memory b)
      then grow fuel hdr size h
      else some (hdr, h)
  some (u32 (hdr + header_size), take_block hdr size h)

-- `free` merges the block with a free neighbour on either side.
abbrev pub merge_prev : ℕ → Heap → ℕ × Heap
merge_prev hdr h =
    let b = h.headers hdr in
    let prev = h.headers b.prev_header in
    if not (b.prev_header == 0) && not (has used prev)
    then (
      b.prev_header,
      set_header b.prev_header
          (record prev {
            size = u32 (prev.size + b.size);
            status = bit_or prev.status (bit_and b.status end_of_memory);
          })
          h,
    )
    else (hdr, h)

abbrev pub merge_next : ℕ → Heap → Heap
merge_next hdr h =
    let b = h.headers hdr in
    let next_hdr = find_next_hdr hdr h in
    let next = h.headers next_hdr in
    let next_next = find_next_hdr next_hdr h in
    let merged =
      set_header hdr
        (record b {
          size = u32 (b.size + next.size);
          status = bit_or b.status (bit_and next.status end_of_memory);
        })
        h in
    if b.status == end_of_memory || has used next
    then h
    else if has end_of_memory next
    then merged
    else set_header next_next (record (merged.headers next_next) { prev_header = hdr }) merged

pub free : ℕ → Heap → Heap
free ptr h =
    let (hdr, h) = merge_prev (u32 (ptr + 4294967280)) h in
    let h = merge_next hdr h in
    let b = h.headers hdr in set_header hdr (record b { status = drop_flag used b.status }) h
