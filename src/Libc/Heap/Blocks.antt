-- ===== src/Libc/Heap/Blocks.antt =====
-- The heap of libc/arch/i686/malloc.c as a list of blocks: what `malloc` is to do to it.
pub mod Take
pub mod Malloc
pub mod Free
use Prim.Native.Nat.{bit_and, bit_or}
use oldasternix.Prelude.{
  ℕ, zero, suc, ◌+◌, ◌-◌, ◌*◌, ◌^◌, ◌%◌, ◌≤◌, ◌<◌, ◌≡◌, ◌≢◌, refl, sym, ap, ◌∙◌, inl, inr,
  Bool-cases, Bool, true, false, not, ◌&&◌, ◌||◌, some, List, [], ◌∷◌, ◌++◌, ◌==◌, leb, ltb,
  if◌then◌else◌, length, arith,
}
use oldasternix.Prelude.Word.{u32}
use oldasternix.Libc.Heap.{
  Heap, Header, used, end_of_memory, has, unfit, find_next_hdr, search, take_block, round_up,
  malloc,
}

pub record Block : Type 0 where
  pub taken : Bool
  pub size : ℕ

abbrev pub status_of : Bool → Bool → ℕ
status_of false false = 0
status_of true false = 1
status_of false true = 2
status_of true true = 3

abbrev pub is_nil : List Block → Bool
is_nil [] = true
is_nil (b ∷ bs) = false

-- The header of a block: the block before it, and whether it is the last one.
abbrev pub header_of : ℕ → Block → Bool → Header
header_of prev b last = record {
  status = status_of b.taken last;
  size = b.size;
  prev_header = prev;
}

-- The blocks lie one behind the other from `hdr` on, each behind its header of 16 bytes.
abbrev pub Lies : ℕ → ℕ → List Block → (ℕ → Header) → Type 0
Lies hdr prev [] headers = Unit {0}
Lies hdr prev (b ∷ bs) headers =
    (headers hdr ≡ header_of prev b (is_nil bs)) × Lies (hdr + 16 + b.size) hdr bs headers

-- The bytes that blocks and their headers take.
abbrev pub extent : List Block → ℕ
extent [] = 0
extent (b ∷ bs) = 16 + b.size + extent bs

-- The block is free and has room.
abbrev pub fits : ℕ → Block → Bool
fits size b = not b.taken && leb size b.size

-- Taking a block: what is left of it becomes a block of its own when it has room for more than
-- another header.
abbrev pub take_from : ℕ → Block → List Block → List Block
take_from size b bs =
    if leb (size + 32) b.size
    then record { taken = true; size = size }
      ∷ record { taken = false; size = b.size - (size + 16) }
      ∷ bs
    else record { taken = true; size = b.size } ∷ bs

-- The first block that fits is taken.
abbrev pub allocate : ℕ → List Block → List Block
allocate size [] = []
allocate size (b ∷ bs) = if fits size b then take_from size b bs else b ∷ allocate size bs

abbrev pub any_fits : ℕ → List Block → Bool
any_fits size [] = false
any_fits size (b ∷ bs) = fits size b || any_fits size bs

-- The address of that block.
abbrev pub address : ℕ → ℕ → List Block → ℕ
address size hdr [] = hdr
address size hdr (b ∷ bs) = if fits size b then hdr else address size (hdr + 16 + b.size) bs

pub Lies-same :
    (hdr prev : ℕ) (bs : List Block) (f g : ℕ → Header)
    → ((x : ℕ) → hdr ≤ x → g x ≡ f x)
    → Lies hdr prev bs f
    → Lies hdr prev bs g
Lies-same hdr prev [] f g same lies = tt
Lies-same hdr prev (b ∷ bs) f g same (here, rest) = (
  same hdr (omega arith) ∙ here,
  Lies-same (hdr + 16 + b.size) hdr bs f g (λ x l. same x (omega (arith, l))) rest,
)
