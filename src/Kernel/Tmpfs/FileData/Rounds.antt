-- ===== src/Kernel/Tmpfs/FileData/Rounds.antt =====
-- The loop over blocks of `tmpfs_write`.
use oldasternix.Prelude.{
  ℕ, zero, suc, ◌+◌, ◌-◌, ◌*◌, ◌/◌, ◌%◌, ◌≤◌, ◌<◌, ◌≡◌, refl, ap, ◌⊎◌, ◌∙◌, false, Bool-cases, inl,
  inr, some, [], ◌∷◌, ◌++◌, ltb, if◌then◌else◌, length, length-append, get_or, arith,
}
use oldasternix.Libc.Memory.{Memory}
use oldasternix.Kernel.Tmpfs.Chain.{
  Block, Chain, Fresh, zero_block, blk_size, copy_in, set_block, next_blk, write_round, write_loop,
}
use oldasternix.Kernel.Tmpfs.FileData.Walk.{
  byte_at, length-set_block, get_or-set_block, get_or-snoc,
}

abbrev pub block : Chain → ℕ → Block
block c j = get_or c.blocks j zero_block

-- One round has put bytes from memory at the start of block `j`, and touched no other block.
pub record Rounded (m : Memory) (buf count j : ℕ) (c c' : Chain) : Type 0 where
  pub tidy : c'.stray ≡ false
  pub reached : j < length c'.blocks
  pub grown : length c.blocks ≤ length c'.blocks
  pub filled : (x : ℕ) → x < count → block c' j x ≡ m (buf + x)
  pub kept : (k : ℕ) → k < j → block c' k ≡ block c k

write_round-Rounded :
    (fresh : Fresh) (m : Memory) (buf n i : ℕ) (c : Chain)
    → fresh.stray ≡ false
    → c.stray ≡ false
    → i < length c.blocks
    → let count = if ltb n blk_size then n else blk_size in
      (c' : Chain) × (write_round fresh m buf n i c ≡ some c') × Rounded m buf count (i + 1) c c'
unfolding write_round next_blk
write_round-Rounded fresh m buf n i c clean tidy inside =
    let count : ℕ = if ltb n blk_size then n else blk_size in
    elim (Bool-cases (ltb (i + 1) (length c.blocks))) [
      | inl more ↦
          let new = copy_in m buf (block c (i + 1)) 0 count in
          (
            record c { blocks = set_block c.blocks (i + 1) new },
            ground (arith, more),
            record {
              tidy = tidy;
              reached = ground (arith, length-set_block c.blocks (i + 1) new);
              grown = ground (arith, length-set_block c.blocks (i + 1) new);
              filled = λ x l. ground (
                arith,
                ap (λ (b : Block). b x)
                    (get_or-set_block c.blocks (i + 1) (i + 1) new zero_block (ground arith)),
              );
              kept = λ k l. ground (arith, get_or-set_block c.blocks (i + 1) k new zero_block);
            },
          )
      | inr last ↦
          let new = copy_in m buf fresh.bytes 0 count in
          let e : i + 1 ≡ length c.blocks = ground arith in
          (
            record { blocks = c.blocks ++ new ∷ []; stray = fresh.stray },
            ground (arith, last),
            record {
              tidy = clean;
              reached = omega (arith, length-append c.blocks (new ∷ []));
              grown = omega (arith, length-append c.blocks (new ∷ []));
              filled = λ x l.
                  ground (
                    arith,
                    e,
                    ap (λ (b : Block). b x) (get_or-snoc c.blocks (i + 1) new zero_block),
                  );
              kept = λ k l. ground (arith, e, get_or-snoc c.blocks k new zero_block);
            },
          )
    ]

-- The bytes from `lo` to `hi` come from memory, and those before `lo` are as before.
pub record IsStored (m : Memory) (buf lo hi : ℕ) (c c' : Chain) : Type 0 where
  pub tidy : c'.stray ≡ false
  pub grown : length c.blocks ≤ length c'.blocks
  pub room : hi ≤ 4096 * length c'.blocks
  pub new : (x : ℕ) → lo ≤ x → x < hi → byte_at c' x ≡ m (buf + (x - lo))
  pub old : (x : ℕ) → x < lo → byte_at c' x ≡ byte_at c x

-- The index of a byte in its file, from its block and its place in it.
pub byte_at-block :
    (c : Chain) (j x : ℕ)
    → 4096 * j ≤ x
    → x < 4096 * j + 4096
    → byte_at c x ≡ block c j (x - 4096 * j)
byte_at-block c j x lo hi =
    let e : x / 4096 ≡ j = omega arith in
    let e' : x % 4096 ≡ x - 4096 * j = omega arith in rw (e, e')

IsStored-step :
    (m : Memory) (buf count i off end : ℕ) (c c1 c' : Chain)
    → off ≡ 4096 * (i + 1)
    → (end ≤ off + count) ⊎ (count ≡ 4096)
    → Rounded m buf count (i + 1) c c1
    → IsStored m (buf + 4096) (off + 4096) end c1 c'
    → IsStored m buf off end c c'
IsStored-step m buf count i off end c c1 c' start enough r s = record {
  tidy = s.tidy;
  grown = omega arith;
  room = s.room;
  new = λ x lo hi. elim (Bool-cases (ltb x (off + 4096))) [
    | inl here ↦
        let e : x - 4096 * (i + 1) ≡ x - off = omega arith in
        s.old x (ground arith)
        ∙ byte_at-block c1 (i + 1) x (omega arith) (ground arith)
        ∙ r.filled (x - 4096 * (i + 1)) (ground arith)
        ∙ ap (λ k. m (buf + k)) e
    | inr later ↦ ground (
      arith,
      s.new x,
      ap m {x = buf + 4096 + (x - (off + 4096))} {y = buf + (x - off)} (ground arith),
    )
  ];
  old = λ x l.
      s.old x (omega arith) ∙ ap (λ (b : Block). b (x % 4096)) (r.kept (x / 4096) (omega arith));
}

module _ (fresh : Fresh) (m : Memory) (clean : fresh.stray ≡ false) where
  -- With enough rounds the loop stores everything up to `end`, starting at a block's beginning.
  pub write_loop-IsStored :
      (f off end buf n i : ℕ) (c : Chain)
      → off ≡ 4096 * (i + 1)
      → end ≤ off + n
      → end ≤ off + 4096 * f
      → c.stray ≡ false
      → i < length c.blocks
      → (c' : Chain) × (write_loop (suc f) fresh m off end buf n i c ≡ some c')
        × IsStored m buf off end c c'
  unfolding write_loop
  write_loop-IsStored zero off end buf n i c start part fuel tidy inside = (
    c,
    ground arith,
    record {
      tidy = tidy;
      grown = omega arith;
      room = omega arith;
      new = λ x lo hi. absurd (omega arith);
      old = λ x l. refl;
    },
  )
  write_loop-IsStored (suc f) off end buf n i c start part fuel tidy inside =
      elim (Bool-cases (ltb off end)) [
        | inr done ↦ (
          c,
          ground arith,
          record {
            tidy = tidy;
            grown = omega arith;
            room = ground arith;
            new = λ x lo hi. absurd (ground arith);
            old = λ x l. refl;
          },
        )
        | inl more ↦
            let count : ℕ = if ltb n blk_size then n else blk_size in
            let (c1, e1, r) = write_round-Rounded fresh m buf n i c clean tidy inside in
            let (c', e', s) =
              write_loop-IsStored f (off + 4096) end (buf + 4096) n (i + 1) c1 (omega arith)
                (omega arith) (omega arith) r.tidy r.reached in
            (
              c',
              ground (arith, e1, e'),
              IsStored-step m buf count i off end c c1 c' start (ground arith) r s,
            )
      ]
