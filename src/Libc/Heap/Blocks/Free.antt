-- ===== src/Libc/Heap/Blocks/Free.antt =====
-- `free` of libc/arch/i686/malloc.c against the list of its blocks.
use Prim.Native.Nat.{bit_and}
use oldasternix.Prelude.{
  ℕ, ◌+◌, ◌^◌, ◌<◌, ◌≡◌, ◌≢◌, refl, ap, ◌∙◌, Bool, true, false, not, ◌&&◌, ◌||◌, List, [], ◌∷◌,
  ◌++◌, ◌==◌, if◌then◌else◌, arith,
}
use oldasternix.Prelude.Word.{u32}
use oldasternix.Libc.Heap.{
  Heap, Header, used, has, drop_flag, find_next_hdr, merge_prev, merge_next, free, set_header,
  end_of_memory,
}
use oldasternix.Libc.Heap.Blocks.{Block, status_of, is_nil, header_of, Lies, extent, Lies-same}

-- The block in front of the place behind `xs`.
abbrev pub before : ℕ → ℕ → List Block → ℕ
before hdr prev [] = prev
before hdr prev (x ∷ xs) = before (hdr + 16 + x.size) hdr xs

-- There is no block in front, or it is taken.
abbrev pub closed : List Block → Bool
closed [] = true
closed (x ∷ []) = x.taken
closed (x ∷ y ∷ xs) = closed (y ∷ xs)

abbrev pub released : Block → Block
released b = record { taken = false; size = b.size }

-- What lies behind the blocks `xs`.
Lies-behind :
    (hdr prev : ℕ) (xs ys : List Block) (f : ℕ → Header)
    → Lies hdr prev (xs ++ ys) f
    → Lies (hdr + extent xs) (before hdr prev xs) ys f
Lies-behind hdr prev [] ys f lies = let e : hdr + 0 ≡ hdr = omega arith in rw e lies
Lies-behind hdr prev (x ∷ xs) ys f (here, rest) =
    let e : hdr + (16 + x.size + extent xs) ≡ hdr + 16 + x.size + extent xs = omega arith in
    rw e (Lies-behind (hdr + 16 + x.size) hdr xs ys f rest)

extent-append : (xs ys : List Block) → extent (xs ++ ys) ≡ extent xs + extent ys
extent-append [] ys = omega arith
extent-append (x ∷ xs) ys = omega (arith, extent-append xs ys)

-- A header put in the place of the block behind `xs`.
Lies-put :
    (hdr prev : ℕ) (xs : List Block) (b b' c : Block) (ys : List Block) (f g : ℕ → Header)
    → b'.size ≡ b.size
    → g (hdr + extent xs) ≡ header_of (before hdr prev xs) b' false
    → ((x : ℕ) → x ≢ hdr + extent xs → g x ≡ f x)
    → Lies hdr prev (xs ++ b ∷ c ∷ ys) f
    → Lies hdr prev (xs ++ b' ∷ c ∷ ys) g
Lies-put hdr prev [] b b' c ys f g size put same (here, rest) =
    let e : hdr + 0 ≡ hdr = omega arith in
    let behind =
      Lies-same (hdr + 16 + b.size) hdr (c ∷ ys) f g (λ x l. same x (omega (arith, l))) rest in
    (rw e at put, rw size behind)
Lies-put hdr prev (x ∷ xs) b b' c ys f g size put same (here, rest) =
    let e : hdr + (16 + x.size + extent xs) ≡ hdr + 16 + x.size + extent xs = omega arith in
    (
      same hdr (omega arith) ∙ here ∙ ap (header_of prev x) (not_nil xs),
      Lies-put (hdr + 16 + x.size) hdr xs b b' c ys f g size (rw e at put)
          (λ y other. same y (rw e other)) rest,
    )
  where
    not_nil : (zs : List Block) → is_nil (zs ++ b ∷ c ∷ ys) ≡ is_nil (zs ++ b' ∷ c ∷ ys)
    not_nil [] = refl
    not_nil (z ∷ zs) = refl

used_flag : (prev : ℕ) (b : Block) (last : Bool) → has used (header_of prev b last) ≡ b.taken
used_flag prev b last = flag b.taken last
  where
    flag : (t l : Bool) → not (bit_and (status_of t l) 1 == 0) ≡ t
    flag true true = refl
    flag true false = refl
    flag false true = refl
    flag false false = refl

-- A taken block in front.
before-used :
    (hdr prev : ℕ) (x : Block) (xs ys : List Block) (f : ℕ → Header)
    → closed (x ∷ xs) ≡ true
    → Lies hdr prev ((x ∷ xs) ++ ys) f
    → (has used (f (before hdr prev (x ∷ xs))) ≡ true)
before-used hdr prev x [] ys f taken (here, rest) =
    ap (has used) here ∙ used_flag prev x (is_nil ys) ∙ taken
before-used hdr prev x (y ∷ xs) ys f taken (here, rest) =
    before-used (hdr + 16 + x.size) hdr y xs ys f taken rest

merge_prev-closed :
    (hdr : ℕ) (xs ys : List Block) (b : Block) (h : Heap)
    → closed xs ≡ true
    → Lies hdr 0 (xs ++ b ∷ ys) h.headers
    → merge_prev (hdr + extent xs) h ≡ (hdr + extent xs, h)
merge_prev-closed hdr xs ys b h shut lies =
    let link : (h.headers (hdr + extent xs)).prev_header ≡ before hdr 0 xs =
      ap (λ c. c.prev_header) (Lies-behind hdr 0 xs (b ∷ ys) h.headers lies).0 in
    rw link (rw (stays xs shut lies) refl)
  where
    stays :
        (zs : List Block)
        → closed zs ≡ true
        → Lies hdr 0 (zs ++ b ∷ ys) h.headers
        → (not (before hdr 0 zs == 0) && not (has used (h.headers (before hdr 0 zs)))) ≡ false
    stays [] c l = refl
    stays (z ∷ zs) c l =
        let taken = before-used hdr 0 z zs (b ∷ ys) h.headers c l in ground (arith, taken)

merge_next-closed :
    (hdr : ℕ) (h : Heap) → has used (h.headers (find_next_hdr hdr h)) ≡ true → merge_next hdr h ≡ h
merge_next-closed hdr h taken =
    met ((h.headers hdr).status == end_of_memory) (has used (h.headers (find_next_hdr hdr h))) h _
      taken
  where
    met : (a b : Bool) (x y : Heap) → b ≡ true → (if a || b then x else y) ≡ x
    met true b x y e = refl
    met false b x y e = rw e refl

-- The end of `free`.
abbrev mark_free : ℕ × Heap → Heap
mark_free (hdr, h) =
    let h = merge_next hdr h in
    let b = h.headers hdr in set_header hdr (record b { status = drop_flag used b.status }) h

free-mark_free :
    (ptr : ℕ) (h : Heap) → free ptr h ≡ mark_free (merge_prev (u32 (ptr + 4294967280)) h)
unfolding free
free-mark_free ptr h = refl

mark_free-closed :
    (hdr : ℕ) (h : Heap)
    → merge_next hdr h ≡ h
    → mark_free (hdr, h)
      ≡ set_header hdr (record (h.headers hdr) { status = drop_flag used (h.headers hdr).status }) h
mark_free-closed hdr h same =
    ap
      (λ (k : Heap).
        set_header hdr (record (k.headers hdr) { status = drop_flag used (k.headers hdr).status })
          k)
      same

cleared :
    (d : Header) (prev : ℕ) (b : Block)
    → d ≡ record { status = 1; size = b.size; prev_header = prev }
    → ◌≡◌ {A = Header}
        (record d { status = drop_flag used d.status })
        (header_of prev (released b) false)
cleared d prev b e = ap (λ (k : Header). record k { status = drop_flag used k.status }) e

-- `free` against the heap as a list of blocks, for a taken block between neighbours that are taken
-- too (in front of it there may be none): the headers then are those of the same list with that
-- block free. The headers were those of the list before, and the blocks end below 2^32.
pub free-released :
    (hdr : ℕ) (xs ys : List Block) (b c : Block) (h : Heap)
    → hdr + extent (xs ++ b ∷ c ∷ ys) < 2 ^ 32
    → closed xs ≡ true
    → b.taken ≡ true
    → c.taken ≡ true
    → Lies hdr 0 (xs ++ b ∷ c ∷ ys) h.headers
    → Lies hdr 0 (xs ++ released b ∷ c ∷ ys) (free (hdr + extent xs + 16) h).headers
free-released hdr xs ys b c h top shut taken taken' lies =
    let at = hdr + extent xs in
    let (here, (next, rest)) = Lies-behind hdr 0 xs (b ∷ c ∷ ys) h.headers lies in
    let inside : at + 16 + b.size < 2 ^ 32 = omega (arith, top, extent-append xs (b ∷ c ∷ ys)) in
    let back : u32 (at + 16 + 4294967280) ≡ at = omega (arith, inside) in
    let follows : find_next_hdr at h ≡ at + 16 + b.size =
      ap (λ d. u32 (at + 16 + d.size)) here ∙ omega (arith, inside) in
    let busy : has used (h.headers (find_next_hdr at h)) ≡ true =
      ap (λ a. has used (h.headers a)) follows
      ∙ ap (has used) next
      ∙ used_flag at c (is_nil ys)
      ∙ taken' in
    let h' =
      set_header at (record (h.headers at) { status = drop_flag used (h.headers at).status }) h in
    let ends : free (at + 16) h ≡ h' =
      free-mark_free (at + 16) h
      ∙ ap (λ a. mark_free (merge_prev a h)) back
      ∙ ap mark_free (merge_prev-closed hdr xs (c ∷ ys) b h shut lies)
      ∙ mark_free-closed at h (merge_next-closed at h busy) in
    let self : (at == at) ≡ true = ground arith in
    let mark : h'.headers at ≡ header_of (before hdr 0 xs) (released b) false =
      rw self (cleared (h.headers at) (before hdr 0 xs) b (rw taken at here)) in
    rw ends (
      Lies-put hdr 0 xs b (released b) c ys h.headers h'.headers refl mark
        (λ x other. (let differ : (x == at) ≡ false = ground (arith, other) in rw differ)) lies)
