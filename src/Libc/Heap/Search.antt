-- ===== src/Libc/Heap/Search.antt =====
-- Where `malloc` of libc/arch/i686/malloc.c takes a block from.
use Prim.Native.Nat.{bit_and, bit_or}
use oldasternix.Prelude.{
  ℕ, zero, suc, ◌+◌, ◌≤◌, ◌<◌, ◌≡◌, ◌≢◌, refl, ap, inl, inr, ◌^◌, Bool-cases, Bool, true, false,
  not, ◌&&◌, some, List, [], ◌∷◌, ◌==◌, leb, if◌then◌else◌, length, arith,
}
use oldasternix.Prelude.Bits.{all_below, all_below-elim}
use oldasternix.Prelude.Word.{u32}
use oldasternix.Libc.Heap.{
  Heap, Header, used, end_of_memory, has, unfit, find_next_hdr, search, take_block, round_up,
  malloc,
}

-- The headers from `hdr` on, in the order of their addresses: each block starts behind the one
-- before it, and the last one alone has the flag END_OF_MEMORY.
abbrev pub IsChain : ℕ → List Header → Heap → Type 0
IsChain hdr [] h = ⊥
IsChain hdr (b ∷ []) h = (hdr ≢ 0) × (h.headers hdr ≡ b) × (has end_of_memory b ≡ true)
IsChain hdr (b ∷ b' ∷ bs) h =
    (hdr ≢ 0)
    × (h.headers hdr ≡ b)
    × (has end_of_memory b ≡ false)
    × IsChain (u32 (hdr + 16 + b.size)) (b' ∷ bs) h

-- The address of the first block that can take `size` bytes, or of the last block.
pub first_fit : ℕ → ℕ → List Header → ℕ
first_fit size hdr [] = hdr
first_fit size hdr (b ∷ []) = hdr
first_fit size hdr (b ∷ b' ∷ bs) =
    if unfit size b then first_fit size (u32 (hdr + 16 + b.size)) (b' ∷ bs) else hdr

search-first_fit :
    (k hdr size : ℕ) (bs : List Header) (h : Heap)
    → length bs ≤ k
    → IsChain hdr bs h
    → search k hdr size h ≡ some (first_fit size hdr bs)
unfolding search first_fit
search-first_fit k hdr size [] h fuel chain = absurd chain
search-first_fit zero hdr size (b ∷ bs) h fuel chain = absurd (omega arith)
search-first_fit (suc k) hdr size (b ∷ []) h fuel (apart, here, last) =
    let mapped : (hdr == 0) ≡ false = ground arith in
    rw (here, last, mapped)
      (elim (Bool-cases (unfit size b)) [ inl full ↦ rw full | inr fits ↦ rw fits ])
search-first_fit (suc k) hdr size (b ∷ b' ∷ bs) h fuel (apart, here, more, rest) =
    let mapped : (hdr == 0) ≡ false = ground arith in
    let next : find_next_hdr hdr h ≡ u32 (hdr + 16 + b.size) =
      ap (λ t. u32 (hdr + 16 + t.size)) here in
    let found = search-first_fit k (u32 (hdr + 16 + b.size)) size (b' ∷ bs) h (omega arith) rest in
    rw (next, here, more, mapped)
      (elim (Bool-cases (unfit size b)) [ inl full ↦ rw (full, found) | inr fits ↦ rw fits ])

abbrev used_kept : ℕ → Bool
used_kept s = not (bit_and (bit_or s 1) 1 == 0) && not (bit_and (bit_and (bit_or s 1) 253) 1 == 0)

used_table : all_below 256 used_kept ≡ true
unfolding all_below
used_table = refl

-- What taking a block does to the headers.
take_block_lem :
    (hdr size a : ℕ) (h : Heap)
    → hdr < 2 ^ 32
    → size + 16 < 2 ^ 32
    → size ≤ (h.headers hdr).size
    → (h.headers hdr).status < 256
    → a ≢ hdr
    → a ≢ u32 (hdr + 16 + size)
    → let h' = take_block hdr size h in
      (has used (h'.headers hdr) ≡ true)
      × (size ≤ (h'.headers hdr).size)
      × ((h'.headers a).status ≡ (h.headers a).status)
      × ((h'.headers a).size ≡ (h.headers a).size)
unfolding take_block
take_block_lem hdr size a h small fits room byte other inner =
    let kept = all_below-elim 256 used_kept (h.headers hdr).status used_table byte in
    let apart : hdr ≢ u32 (hdr + 16 + size) = omega arith in
    let split = leb (u32 (size + 32)) (h.headers hdr).size in
    elim (Bool-cases split) [
      | inl large ↦ elim (Bool-cases (has end_of_memory (h.headers hdr))) [
        | inl last ↦ rw (large, last) (ground (arith, kept, apart))
        | inr more ↦ rw (large, more) (ground (arith, kept, apart))
      ]
      | inr small_enough ↦ rw small_enough (ground (arith, kept))
    ]

-- `malloc` on a chain of blocks, with fuel for each block, when the first block of the chain that
-- is free and large enough (else the last one) does fit: it runs to its end and returns the address
-- behind that block's header, which is now used and has at least the size asked for, rounded up to
-- 16. Any other header but the one that a split puts into the block keeps its status and size. The
-- block's address and the size fit 32 bits, and its status a byte.
pub malloc-first_fit :
    (fuel size a : ℕ) (bs : List Header) (h : Heap)
    → length bs ≤ fuel
    → IsChain h.first_hdr bs h
    → let hdr = first_fit (round_up size) h.first_hdr bs in
      hdr < 2 ^ 32
      → hdr ≢ 0
      → round_up size + 16 < 2 ^ 32
      → unfit (round_up size) (h.headers hdr) ≡ false
      → (h.headers hdr).status < 256
      → a ≢ hdr
      → a ≢ u32 (hdr + 16 + round_up size)
      → (h' : Heap) × (malloc fuel size h ≡ some (u32 (hdr + 16), h'))
        × (has used (h'.headers hdr) ≡ true)
        × (round_up size ≤ (h'.headers hdr).size)
        × ((h'.headers a).status ≡ (h.headers a).status)
        × ((h'.headers a).size ≡ (h.headers a).size)
unfolding malloc
malloc-first_fit fuel size a bs h enough chain small mapped fits free byte other inner =
    let hdr = first_fit (round_up size) h.first_hdr bs in
    let found = search-first_fit fuel h.first_hdr (round_up size) bs h enough chain in
    let room : round_up size ≤ (h.headers hdr).size = ground (arith, free) in
    let there : (hdr == 0) ≡ false = ground (arith, mapped) in
    let (taken, size_kept, status_same, size_same) =
      take_block_lem hdr (round_up size) a h small fits room byte other inner in
    (
      take_block hdr (round_up size) h,
      rw (found, there, free),
      taken,
      size_kept,
      status_same,
      size_same,
    )
