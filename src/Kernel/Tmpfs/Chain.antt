-- ===== src/Kernel/Tmpfs/Chain.antt =====
-- The blocks of a regular file of kernel/fs/tmpfs.c: the chain that starts with `firstblk`.
-- `find_blk`, and the two loops over blocks of `tmpfs_write` and `tmpfs_read`. A result of `none` is
-- that the code follows a pointer that it never set, or a null pointer, or that the fuel ran out.
use oldasternix.Prelude.{
  ℕ, zero, suc, ◌+◌, ◌-◌, ◌/◌, Bool, Option, none, some, List, [], ◌∷◌, ◌++◌, ltb, leb,
  if◌then◌else◌, length, get_or,
}
use oldasternix.Libc.Memory.{Memory}
use oldasternix.Libc.Block.{within}

abbrev pub blk_size : ℕ
blk_size = 4096

-- `buf` of a `struct tmpfs_blk`: its byte at each offset below 4096.
abbrev pub Block : Type 0
Block = ℕ → ℕ

abbrev pub zero_block : Block
zero_block = λ _. 0

-- The blocks in order, and whether the last `nextblk` holds a stray value instead of a null
-- pointer: `tmpfs_write` leaves it unset in the blocks that its loop allocates.
pub record Chain : Type 0 where
  pub blocks : List Block
  pub stray : Bool

-- What `malloc` hands out for a new block: its old bytes, and whether its `nextblk` is nonzero.
pub record Fresh : Type 0 where
  pub bytes : Block
  pub stray : Bool

-- `memcpy` from memory into a block, and from a block into memory.
abbrev pub copy_in : Memory → ℕ → Block → ℕ → ℕ → Block
copy_in m buf b off n = λ x. if within off n x then m (buf + (x - off)) else b x

abbrev pub copy_out : Block → ℕ → Memory → ℕ → ℕ → Memory
copy_out b off m buf n = λ x. if within buf n x then b (off + (x - buf)) else m x

abbrev pub set_block : List Block → ℕ → Block → List Block
set_block [] i b = []
set_block (a ∷ rest) zero b = b ∷ rest
set_block (a ∷ rest) (suc i) b = a ∷ set_block rest i b

-- `ret = ret->nextblk`: the index of the next block, or a null pointer.
unfoldable pub next_blk : Chain → ℕ → Option (Option ℕ)
next_blk c i =
    if ltb (i + 1) (length c.blocks)
    then some (some (i + 1))
    else if c.stray
    then none
    else some none

-- The loop of `find_blk`, at block `i`.
unfoldable pub find_blk_loop : ℕ → Chain → ℕ → ℕ → ℕ → Option (Option ℕ)
find_blk_loop zero c o off i = none
find_blk_loop (suc f) c o off i =
    let rest = find_blk_loop f c (o + blk_size) off (i + 1) in
    if leb o off
    then elim (next_blk c i) [ none ↦ none | some none ↦ some none | some (some _) ↦ rest ]
    else some (some i)

-- `find_blk` makes at most `off / 4096` rounds.
unfoldable pub find_blk : Chain → ℕ → Option (Option ℕ)
find_blk c off = find_blk_loop (off / blk_size + 1) c blk_size off 0

-- One round of the loop of `tmpfs_write` behind block `i`: allocate the next block if there is
-- none, and copy into it.
unfoldable pub write_round : Fresh → Memory → ℕ → ℕ → ℕ → Chain → Option Chain
write_round fresh m buf n i c =
    let count = if ltb n blk_size then n else blk_size in
    elim (next_blk c i) [
      | none ↦ none
      | some none ↦ some (record {
        blocks = c.blocks ++ copy_in m buf fresh.bytes 0 count ∷ [];
        stray = fresh.stray;
      })
      | some (some j) ↦ some (record c {
        blocks = set_block c.blocks j (copy_in m buf (get_or c.blocks j zero_block) 0 count);
      })
    ]

-- The loop `while (pos < end)` of `tmpfs_write`; `n` is the whole count in every round.
unfoldable pub write_loop : ℕ → Fresh → Memory → ℕ → ℕ → ℕ → ℕ → ℕ → Chain → Option Chain
write_loop zero fresh m off end buf n i c = none
write_loop (suc f) fresh m off end buf n i c =
    if ltb off end
    then elim (write_round fresh m buf n i c) [
      | none ↦ none
      | some c' ↦ write_loop f fresh m (off + blk_size) end (buf + blk_size) n (i + 1) c'
    ]
    else some c

-- The loop `while (pos < end)` of `tmpfs_read`.
unfoldable pub read_loop : ℕ → Chain → ℕ → ℕ → ℕ → ℕ → ℕ → Memory → Option Memory
read_loop zero c off end buf n i m = none
read_loop (suc f) c off end buf n i m =
    let count = if ltb n blk_size then n else blk_size in
    let m' = copy_out (get_or c.blocks (i + 1) zero_block) 0 m buf count in
    let rest = read_loop f c (off + blk_size) end (buf + blk_size) n (i + 1) m' in
    if ltb off end
    then elim (next_blk c i) [ none ↦ none | some none ↦ none | some (some _) ↦ rest ]
    else some m
