-- ===== src/Libc/Heap/Blocks/Take.antt =====
-- What taking a block does to the headers, libc/arch/i686/malloc.c.
use Prim.Native.Nat.{bit_or}
use oldasternix.Prelude.{
  ℕ, ◌+◌, ◌-◌, ◌^◌, ◌≤◌, ◌<◌, ◌≡◌, ◌≢◌, refl, ap, ◌∙◌, inl, inr, Bool-cases, Bool, true, false,
  List, [], ◌∷◌, ◌==◌, leb, arith,
}
use oldasternix.Prelude.Word.{u32}
use oldasternix.Libc.Heap.{Heap, Header, used, take_block}
use oldasternix.Libc.Heap.Blocks.{
  Block, status_of, header_of, Lies, extent, fits, take_from, Lies-same,
}

-- The three ways in which `take_block` ends.
take_small :
    (hdr prev size s : ℕ) (last : Bool) (h : Heap)
    → h.headers hdr ≡ record { status = status_of false last; size = s; prev_header = prev }
    → size + 32 < 2 ^ 32
    → leb (size + 32) s ≡ false
    → let h' = take_block hdr size h in
      (h'.headers hdr ≡ header_of prev (record { taken = true; size = s }) last)
      × ((x : ℕ) → x ≢ hdr → h'.headers x ≡ h.headers x)
unfolding take_block
take_small hdr prev size s last h here small short =
    let whole : u32 (size + 32) ≡ size + 32 = omega arith in
    let self : (hdr == hdr) ≡ true = ground arith in
    let room : leb (u32 (size + 32)) (h.headers hdr).size ≡ false =
      ap (leb (u32 (size + 32))) (ap (λ c. c.size) here) ∙ ap (λ n. leb n s) whole ∙ short in
    rw room (
      rw (self, here) (mark last),
      λ x other. (let differ : (x == hdr) ≡ false = ground (arith, other) in rw differ),
    )
  where
    mark :
        (l : Bool)
        → ◌≡◌ {A = Header}
            (record { status = bit_or (status_of false l) used; size = s; prev_header = prev })
            (header_of prev (record { taken = true; size = s }) l)
    mark true = refl
    mark false = refl

take_last :
    (hdr prev size s : ℕ) (h : Heap)
    → h.headers hdr ≡ record { status = 2; size = s; prev_header = prev }
    → hdr + 16 + s < 2 ^ 32
    → size + 32 ≤ s
    → let h' = take_block hdr size h in
      (h'.headers hdr ≡ record { status = 1; size = size; prev_header = prev })
      × (h'.headers (hdr + 16 + size)
          ≡ record { status = 2; size = s - (size + 16); prev_header = hdr })
      × ((x : ℕ) → x ≢ hdr → x ≢ hdr + 16 + size → h'.headers x ≡ h.headers x)
unfolding take_block
take_last hdr prev size s h here top room =
    let whole : u32 (size + 32) ≡ size + 32 = omega arith in
    let next : u32 (hdr + 16 + size) ≡ hdr + 16 + size = omega arith in
    let left : u32 (s + 4294967296 - u32 (size + 16)) ≡ s - (size + 16) = omega arith in
    let large : leb (size + 32) s ≡ true = ground arith in
    let self : (hdr == hdr) ≡ true = ground arith in
    let behind : (hdr == hdr + 16 + size) ≡ false = ground arith in
    let same : (hdr + 16 + size == hdr + 16 + size) ≡ true = ground arith in
    rw (here, whole, large, next, left)
      (
        rw (behind, self),
        rw same,
        λ x other inner.
            let first : (x == hdr) ≡ false = ground (arith, other) in
            let second : (x == hdr + 16 + size) ≡ false = ground (arith, inner) in
            rw (first, second),
      )

take_inner :
    (hdr prev size s : ℕ) (h : Heap)
    → h.headers hdr ≡ record { status = 0; size = s; prev_header = prev }
    → hdr + 16 + s < 2 ^ 32
    → size + 32 ≤ s
    → let h' = take_block hdr size h in
      (h'.headers hdr ≡ record { status = 1; size = size; prev_header = prev })
      × (h'.headers (hdr + 16 + size)
          ≡ record { status = 0; size = s - (size + 16); prev_header = hdr })
      × (h'.headers (hdr + 16 + s)
          ≡ record (h.headers (hdr + 16 + s)) { prev_header = hdr + 16 + size })
      × ((x : ℕ) → x ≢ hdr → x ≢ hdr + 16 + size → x ≢ hdr + 16 + s → h'.headers x ≡ h.headers x)
unfolding take_block
take_inner hdr prev size s h here top room =
    let whole : u32 (size + 32) ≡ size + 32 = omega arith in
    let next : u32 (hdr + 16 + size) ≡ hdr + 16 + size = omega arith in
    let left : u32 (s + 4294967296 - u32 (size + 16)) ≡ s - (size + 16) = omega arith in
    let end : u32 (hdr + 16 + size + 16 + (s - (size + 16))) ≡ hdr + 16 + s = omega arith in
    let large : leb (size + 32) s ≡ true = ground arith in
    let self : (hdr == hdr) ≡ true = ground arith in
    let behind : (hdr == hdr + 16 + size) ≡ false = ground arith in
    let same : (hdr + 16 + size == hdr + 16 + size) ≡ true = ground arith in
    let far : (hdr == hdr + 16 + s) ≡ false = ground arith in
    let far' : (hdr + 16 + size == hdr + 16 + s) ≡ false = ground arith in
    let far'' : (hdr + 16 + s == hdr + 16 + size) ≡ false = ground arith in
    let far''' : (hdr + 16 + s == hdr) ≡ false = ground arith in
    let self' : (hdr + 16 + s == hdr + 16 + s) ≡ true = ground arith in
    rw (here, whole, large, next, left, end)
      (
        rw (far, behind, self),
        rw (far', same),
        rw (self', far'', far'''),
        λ x other inner outer.
            let first : (x == hdr) ≡ false = ground (arith, other) in
            let second : (x == hdr + 16 + size) ≡ false = ground (arith, inner) in
            let third : (x == hdr + 16 + s) ≡ false = ground (arith, outer) in
            rw (first, second, third),
      )

abbrev Takes : ℕ → ℕ → ℕ → Block → List Block → Heap → Type 0
Takes hdr prev size b bs h =
    let h' = take_block hdr size h in
    Lies hdr prev (take_from size b bs) h'.headers
    × ((x : ℕ) → x < hdr → h'.headers x ≡ h.headers x)

free_header :
    (hdr prev size : ℕ) (b : Block) (last : Bool) (h : Heap)
    → fits size b ≡ true
    → h.headers hdr ≡ header_of prev b last
    → h.headers hdr ≡ record { status = status_of false last; size = b.size; prev_header = prev }
free_header hdr prev size b last h good here =
    let free : b.taken ≡ false = ground (arith, good) in rw free at here

pub take_block-Takes :
    (hdr prev size : ℕ) (b : Block) (bs : List Block) (h : Heap)
    → size + 32 < 2 ^ 32
    → hdr + extent (b ∷ bs) < 2 ^ 32
    → fits size b ≡ true
    → Lies hdr prev (b ∷ bs) h.headers
    → Takes hdr prev size b bs h
take_block-Takes hdr prev size b [] h small top good (here, rest) =
    let header = free_header hdr prev size b true h good here in
    elim (Bool-cases (leb (size + 32) b.size)) [
      | inl large ↦
          let (a, c, same) =
            take_last hdr prev size b.size h header (omega arith) (ground (arith, large)) in
          rw large ((a, (c, tt)), λ x l. same x (omega arith) (omega arith))
      | inr short ↦
          let (a, same) = take_small hdr prev size b.size true h header small short in
          rw short ((a, tt), λ x l. same x (omega arith))
    ]
take_block-Takes hdr prev size b (c ∷ cs) h small top good (here, (next, rest)) =
    let header = free_header hdr prev size b false h good here in
    elim (Bool-cases (leb (size + 32) b.size)) [
      | inl large ↦
          let room : size + 32 ≤ b.size = ground (arith, large) in
          let (a, d, e, same) =
            take_inner hdr prev size b.size h header (omega (arith, top)) room in
          let place : hdr + 16 + size + 16 + (b.size - (size + 16)) ≡ hdr + 16 + b.size =
            omega (arith, room) in
          let kept =
            Lies-same (hdr + 16 + b.size + 16 + c.size) (hdr + 16 + b.size) cs h.headers
              (take_block hdr size h).headers
              (λ x l. same x (omega (arith, l)) (omega (arith, l, room)) (omega (arith, l))) rest in
          rw (large, place)
            (
              (
                a,
                (
                  d,
                  (
                    e
                        ∙ ap {A = Header} {B = Header}
                            (λ t. record t { prev_header = hdr + 16 + size }) next,
                    kept,
                  ),
                ),
              ),
              λ x l. same x (omega (arith, l)) (omega (arith, l)) (omega (arith, l)),
            )
      | inr short ↦
          let (a, same) = take_small hdr prev size b.size false h header small short in
          let kept =
            Lies-same (hdr + 16 + b.size) hdr (c ∷ cs) h.headers (take_block hdr size h).headers
              (λ x l. same x (omega (arith, l))) (next, rest) in
          rw short ((a, kept), λ x l. same x (omega (arith, l)))
    ]
