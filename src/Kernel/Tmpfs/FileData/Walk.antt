-- ===== src/Kernel/Tmpfs/FileData/Walk.antt =====
-- Positions in the chain of blocks, and `find_blk` of kernel/fs/tmpfs.c.
use oldasternix.Prelude.{
  ℕ, zero, suc, ◌+◌, ◌*◌, ◌/◌, ◌%◌, ◌≤◌, ◌<◌, ◌≡◌, refl, ap, false, none, some, List, [], ◌∷◌, ◌++◌,
  ◌==◌, ltb, if◌then◌else◌, length, get_or, arith,
}
use oldasternix.Kernel.Tmpfs.Chain.{
  Block, Chain, zero_block, set_block, next_blk, find_blk_loop, find_blk,
}

-- The byte of the file at `x`, as its chain of blocks stores it.
abbrev pub byte_at : Chain → ℕ → ℕ
byte_at c x = get_or c.blocks (x / 4096) zero_block (x % 4096)

find_blk_loop_lem :
    (f : ℕ) (c : Chain) (off i : ℕ)
    → c.stray ≡ false
    → i < length c.blocks
    → off / 4096 < i + f
    → i ≤ off / 4096
    → find_blk_loop f c (4096 * (i + 1)) off i
      ≡ some (if ltb (off / 4096) (length c.blocks) then some (off / 4096) else none)
unfolding find_blk_loop next_blk
find_blk_loop_lem zero c off i tidy inside fuel le = absurd (omega arith)
find_blk_loop_lem (suc f) c off i tidy inside fuel le =
    let e : 4096 * (i + 1) + 4096 ≡ 4096 * (i + 1 + 1) = omega arith in
    ground
      (arith, e, find_blk_loop_lem f c off (i + 1), ap (λ o. find_blk_loop f c o off (i + 1)) e)

-- On a chain that ends in a null pointer, `find_blk` finds block number `off / 4096`, or a null
-- pointer when the chain is shorter.
pub find_blk-div :
    (c : Chain) (off : ℕ)
    → c.stray ≡ false
    → 0 < length c.blocks
    → find_blk c off ≡ some (if ltb (off / 4096) (length c.blocks) then some (off / 4096) else none)
unfolding find_blk
find_blk-div c off tidy inside =
    find_blk_loop_lem (off / 4096 + 1) c off 0 tidy inside (omega arith) (omega arith)

pub length-set_block : (xs : List Block) (i : ℕ) (b : Block) → length (set_block xs i b) ≡ length xs
length-set_block [] i b = refl
length-set_block (x ∷ xs) zero b = refl
length-set_block (x ∷ xs) (suc i) b = ap suc (length-set_block xs i b)

pub get_or-set_block :
    (xs : List Block) (i j : ℕ) (b d : Block)
    → i < length xs
    → get_or (set_block xs i b) j d ≡ (if j == i then b else get_or xs j d)
get_or-set_block [] i j b d h = absurd (omega arith)
get_or-set_block (x ∷ xs) zero zero b d h = refl
get_or-set_block (x ∷ xs) zero (suc j) b d h = ground arith
get_or-set_block (x ∷ xs) (suc i) zero b d h = ground arith
get_or-set_block (x ∷ xs) (suc i) (suc j) b d h = ground (arith, get_or-set_block xs i j b d)

pub get_or-snoc :
    (xs : List Block) (j : ℕ) (b d : Block)
    → get_or (xs ++ b ∷ []) j d ≡ (if j == length xs then b else get_or xs j d)
get_or-snoc [] zero b d = refl
get_or-snoc [] (suc j) b d = ground arith
get_or-snoc (x ∷ xs) zero b d = ground arith
get_or-snoc (x ∷ xs) (suc j) b d = ground (arith, get_or-snoc xs j b d)
