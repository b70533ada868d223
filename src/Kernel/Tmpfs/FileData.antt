-- ===== src/Kernel/Tmpfs/FileData.antt =====
-- The parts of `tmpfs_write` and `tmpfs_read` that deal with a regular file.
pub mod Walk
pub mod Rounds
pub mod Store
pub mod Load
pub mod RoundTrip
use oldasternix.Prelude.{
  ℕ, zero, suc, ◌+◌, ◌-◌, ◌*◌, ◌/◌, ◌%◌, ◌^◌, Bool, true, false, ◌||◌, Option, none, some, List, [],
  ◌∷◌, ◌++◌, ◌==◌, ltb, leb, if◌then◌else◌, length, get_or,
}
use oldasternix.Prelude.Int.{ℤ, pos}
use oldasternix.Prelude.Word.{u32, to_int}
use oldasternix.Libc.Memory.{Memory}
use oldasternix.Kernel.Tmpfs.Chain.{
  Block, Chain, Fresh, zero_block, blk_size, copy_in, copy_out, set_block, find_blk, write_loop,
  read_loop,
}

-- The fields of a `struct tmpfs_ifile` that reading and writing use.
pub record Content : Type 0 where
  pub size : ℕ
  pub chain : Chain

-- `first_slice`: how much of `n` bytes fits in the block at `off`.
abbrev pub first_slice : ℕ → ℕ → ℕ
first_slice off n = let room = blk_size - off % blk_size in if ltb n room then n else room

-- The start block of a write: the one at `off`, or a new zeroed one behind the last.
pub start_blk : ℕ → Chain → Option (ℕ × Chain)
start_blk off c = elim (find_blk c off) [
  | none ↦ none
  | some (some i) ↦ some (i, c)
  | some none ↦ elim (find_blk c (off - 1)) [
    | none ↦ none
    | some none ↦ none
    | some (some i) ↦ some (i + 1, record { blocks = c.blocks ++ zero_block ∷ []; stray = false })
  ]
]

-- `tmpfs_write` behind its tests of the mode.
pub write_content : Fresh → Memory → ℕ → ℕ → ℕ → Content → Option (ℤ × Content)
write_content fresh m off buf n f =
    if n == 0 then some (pos 0, f) else elim (start_blk off f.chain) [
      | none ↦ none
      | some (i, c) ↦
          let end = u32 (off + n) in
          let slice = first_slice off n in
          let first = copy_in m buf (get_or c.blocks i zero_block) (off % blk_size) slice in
          let c' = record c { blocks = set_block c.blocks i first } in
          elim (write_loop (n / blk_size + 2) fresh m (off + slice) end (buf + slice) n i c') [
            | none ↦ none
            | some c'' ↦
                some
                  (to_int n, record { size = if ltb end f.size then f.size else end; chain = c'' })
          ]
    ]

-- `n` cut at the end of the file, as `tmpfs_read` computes it in 64 bits and stores it in a
-- `size_t`. (Behind the end of the file the result is not used.)
abbrev pub trimmed : Content → ℕ → ℕ → ℕ
trimmed f off n = if leb f.size ((off + n) % 2 ^ 64) then u32 (f.size + 2 ^ 64 - off) else n

-- `tmpfs_read` behind that: the result, and the memory.
pub read_part : Memory → ℕ → ℕ → ℕ → Content → Option (ℤ × Memory)
read_part m off buf n f =
    if leb f.size off || (n == 0) then some (pos 0, m) else elim (find_blk f.chain off) [
      | none ↦ none
      | some none ↦ some (pos 0, m)
      | some (some i) ↦
          let end = u32 (off + n) in
          let slice = first_slice off n in
          let m' = copy_out (get_or f.chain.blocks i zero_block) (off % blk_size) m buf slice in
          elim (read_loop (n / blk_size + 2) f.chain (off + slice) end (buf + slice) n i m') [
            | none ↦ none
            | some m'' ↦ some (to_int n, m'')
          ]
    ]

-- `tmpfs_read` behind its tests of the mode.
pub read_content : Memory → ℕ → ℕ → ℕ → Content → Option (ℤ × Memory)
read_content m off buf n f = read_part m off buf (trimmed f off n) f
