-- ===== src/Libc/Heap/Blocks/Malloc.antt =====
-- `malloc` of libc/arch/i686/malloc.c against the list of its blocks.
use oldasternix.Prelude.{
  ℕ, zero, suc, ◌+◌, ◌^◌, ◌≤◌, ◌<◌, ◌≡◌, ◌≢◌, refl, sym, ap, ◌∙◌, inl, inr, Bool-cases, Bool, true,
  false, not, ◌&&◌, ◌||◌, some, List, [], ◌∷◌, ◌==◌, leb, ltb, length, arith,
}
use oldasternix.Prelude.Word.{u32}
use oldasternix.Libc.Heap.{
  Heap, Header, used, end_of_memory, has, unfit, find_next_hdr, search, take_block, round_up,
  malloc,
}
use oldasternix.Libc.Heap.Blocks.Take.{take_block-Takes}
use oldasternix.Libc.Heap.Blocks.{
  Block, status_of, is_nil, header_of, Lies, extent, fits, allocate, any_fits, address,
}

-- The flags in a status.
status_flags :
    (taken last : Bool) (size prev : ℕ)
    → let b : Header = record { status = status_of taken last; size = size; prev_header = prev } in
      (has used b ≡ taken) × (has end_of_memory b ≡ last)
status_flags false false size prev = (refl, refl)
status_flags false true size prev = (refl, refl)
status_flags true false size prev = (refl, refl)
status_flags true true size prev = (refl, refl)

unfit-fits :
    (size prev : ℕ) (b : Block) (last : Bool)
    → unfit size (header_of prev b last) ≡ not (fits size b)
unfit-fits size prev b last =
    let flags = status_flags b.taken last b.size prev in rw flags.0 (either b.taken)
  where
    either : (t : Bool) → (t || ltb b.size size) ≡ not (not t && leb size b.size)
    either true = refl
    either false = ground arith

any_fits-is_nil : (size : ℕ) (bs : List Block) → any_fits size bs ≡ true → is_nil bs ≡ false
any_fits-is_nil size [] h = ground (arith, h)
any_fits-is_nil size (b ∷ bs) h = refl

-- The search finds the block that `allocate` takes.
search-address :
    (k hdr prev size : ℕ) (bs : List Block) (h : Heap)
    → length bs ≤ k
    → hdr ≢ 0
    → hdr + extent bs < 2 ^ 32
    → any_fits size bs ≡ true
    → Lies hdr prev bs h.headers
    → search k hdr size h ≡ some (address size hdr bs)
unfolding search
search-address k hdr prev size [] h fuel there top fit lies = ground (arith, fit)
search-address zero hdr prev size (b ∷ bs) h fuel there top fit lies = absurd (omega arith)
search-address (suc k) hdr prev size (b ∷ bs) h fuel there top fit (here, rest) =
    let mapped : (hdr == 0) ≡ false = ground arith in
    let flags = status_flags b.taken (is_nil bs) b.size prev in
    let full : unfit size (h.headers hdr) ≡ not (fits size b) =
      ap (unfit size) here ∙ unfit-fits size prev b (is_nil bs) in
    elim (Bool-cases (fits size b)) [
      | inl good ↦ rw (mapped, full, good)
      | inr bad ↦
          let more : any_fits size bs ≡ true = ground (arith, fit, bad) in
          let last : has end_of_memory (h.headers hdr) ≡ false =
            ap (has end_of_memory) here ∙ flags.1 ∙ any_fits-is_nil size bs more in
          let next : find_next_hdr hdr h ≡ hdr + 16 + b.size =
            ap (λ c. u32 (hdr + 16 + c.size)) here ∙ omega (arith, top) in
          rw (mapped, full, bad, last, next)
            (search-address k (hdr + 16 + b.size) hdr size bs h (omega arith) (omega arith)
              (omega (arith, top)) more rest)
    ]

is_nil-allocate : (size : ℕ) (bs : List Block) → is_nil (allocate size bs) ≡ is_nil bs
is_nil-allocate size [] = refl
is_nil-allocate size (b ∷ bs) = elim (Bool-cases (fits size b)) [
  | inl good ↦ rw good (elim (Bool-cases (leb (size + 32) b.size)) [
    | inl large ↦ rw large refl
    | inr short ↦ rw short refl
  ])
  | inr bad ↦ rw bad refl
]

allocate-Lies :
    (hdr prev size : ℕ) (bs : List Block) (h : Heap)
    → size + 32 < 2 ^ 32
    → hdr + extent bs < 2 ^ 32
    → any_fits size bs ≡ true
    → Lies hdr prev bs h.headers
    → let at = address size hdr bs in
      let h' = take_block at size h in
      Lies hdr prev (allocate size bs) h'.headers
      × ((x : ℕ) → x < hdr → h'.headers x ≡ h.headers x)
      × (unfit size (h.headers at) ≡ false)
      × (hdr ≤ at)
allocate-Lies hdr prev size [] h small top fit lies = ground (arith, fit)
allocate-Lies hdr prev size (b ∷ bs) h small top fit (here, rest) =
    elim (Bool-cases (fits size b)) [
      | inl good ↦
          let (lies, same) = take_block-Takes hdr prev size b bs h small top good (here, rest) in
          let room : unfit size (h.headers hdr) ≡ false =
            ap (unfit size) here ∙ unfit-fits size prev b (is_nil bs) ∙ ap not good in
          rw good (lies, same, room, omega arith)
      | inr bad ↦
          let (lies, same, room, above) =
            allocate-Lies (hdr + 16 + b.size) hdr size bs h small (omega (arith, top))
              (ground (arith, fit, bad)) rest in
          rw bad (
            (
              same hdr (omega arith) ∙ here ∙ ap (header_of prev b) (sym (is_nil-allocate size bs)),
              lies,
            ),
            (λ x l. same x (omega (arith, l))),
            room,
            omega (arith, above),
          )
    ]

extent-allocate : (size : ℕ) (bs : List Block) → extent (allocate size bs) ≡ extent bs
extent-allocate size [] = refl
extent-allocate size (b ∷ bs) = elim (Bool-cases (fits size b)) [
  | inl good ↦ rw good (elim (Bool-cases (leb (size + 32) b.size)) [
    | inl large ↦
        rw large (let room : size + 32 ≤ b.size = ground (arith, large) in omega (arith, room))
    | inr short ↦ rw short refl
  ])
  | inr bad ↦ rw bad (omega (arith, extent-allocate size bs))
]

first_hdr-take_block : (hdr size : ℕ) (h : Heap) → (take_block hdr size h).first_hdr ≡ h.first_hdr
unfolding take_block
first_hdr-take_block hdr size h = ground arith

-- `malloc` against the heap as a list of blocks, taken or free, with their sizes: when some free
-- block has room for the size, rounded up to 16, it runs to its end with fuel for each block. It
-- returns the address behind the header of the first such block; the headers then are those of the
-- list in which that block is taken, and what is left of it, when that is more than another header,
-- is a free block behind it. The list covers the same bytes. The headers were those of the list
-- before, the first is not at the null pointer, the blocks end below 2^32, and so does the size
-- with two headers.
pub malloc-allocate :
    (fuel size : ℕ) (bs : List Block) (h : Heap)
    → length bs ≤ fuel
    → h.first_hdr ≢ 0
    → h.first_hdr + extent bs < 2 ^ 32
    → round_up size + 32 < 2 ^ 32
    → any_fits (round_up size) bs ≡ true
    → Lies h.first_hdr 0 bs h.headers
    → (h' : Heap) × (malloc fuel size h
        ≡ some (u32 (address (round_up size) h.first_hdr bs + 16), h'))
      × (h'.first_hdr ≡ h.first_hdr)
      × Lies h.first_hdr 0 (allocate (round_up size) bs) h'.headers
      × (extent (allocate (round_up size) bs) ≡ extent bs)
unfolding malloc
malloc-allocate fuel size bs h enough there top small fit lies =
    let s = round_up size in
    let at = address s h.first_hdr bs in
    let found = search-address fuel h.first_hdr 0 s bs h enough there top fit lies in
    let (kept, same, room, above) = allocate-Lies h.first_hdr 0 s bs h small top fit lies in
    let mapped : (at == 0) ≡ false = ground (arith, there, above) in
    (
      take_block at s h,
      rw (found, mapped, room),
      first_hdr-take_block at s h,
      kept,
      extent-allocate s bs,
    )
