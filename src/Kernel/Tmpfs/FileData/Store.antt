-- ===== src/Kernel/Tmpfs/FileData/Store.antt =====
-- `tmpfs_write` on a regular file: what it stores, and where.
use oldasternix.Prelude.{
  ℕ, suc, ◌+◌, ◌-◌, ◌*◌, ◌/◌, ◌%◌, ◌^◌, ◌≤◌, ◌<◌, ◌≡◌, refl, ap, ◌∙◌, false, Bool-cases, inl, inr,
  some, List, [], ◌∷◌, ◌++◌, ◌==◌, ltb, if◌then◌else◌, length, length-append, get_or, arith,
}
use oldasternix.Prelude.Int.{pos}
use oldasternix.Prelude.Word.{u32, to_int}
use oldasternix.Libc.Memory.{Memory}
use oldasternix.Kernel.Tmpfs.Chain.{Block, Chain, Fresh, zero_block, copy_in, set_block, write_loop}
use oldasternix.Kernel.Tmpfs.FileData.{Content, first_slice, start_blk, write_content}
use oldasternix.Kernel.Tmpfs.FileData.Walk.{
  byte_at, find_blk-div, length-set_block, get_or-set_block, get_or-snoc,
}
use oldasternix.Kernel.Tmpfs.FileData.Rounds.{IsStored, write_loop-IsStored}

-- A file's chain ends in a null pointer, has its first block, and holds at least the file's size.
pub record IsFile (f : Content) : Type 0 where
  pub tidy : f.chain.stray ≡ false
  pub first : 0 < length f.chain.blocks
  pub room : f.size ≤ 4096 * length f.chain.blocks

-- The start block of a write at `off`, with the bytes before `off` as they were.
record IsStart (off i : ℕ) (c c' : Chain) : Type 0 where
  tidy : c'.stray ≡ false
  reached : i < length c'.blocks
  grown : length c.blocks ≤ length c'.blocks
  old : (x : ℕ) → x < off → byte_at c' x ≡ byte_at c x

start_blk-IsStart :
    (off : ℕ) (c : Chain)
    → c.stray ≡ false
    → 0 < length c.blocks
    → off ≤ 4096 * length c.blocks
    → (c' : Chain) × (start_blk off c ≡ some (off / 4096, c')) × IsStart off (off / 4096) c c'
unfolding start_blk
start_blk-IsStart off c tidy first room = elim (Bool-cases (ltb (off / 4096) (length c.blocks))) [
  | inl inside ↦ (
    c,
    ground (arith, find_blk-div c off tidy first, inside),
    record { tidy = tidy; reached = ground arith; grown = omega arith; old = λ x l. refl },
  )
  | inr behind ↦
      let last : off / 4096 ≡ (off - 1) / 4096 + 1 = ground arith in
      let size : off / 4096 ≡ length c.blocks = ground arith in
      (
        record { blocks = c.blocks ++ zero_block ∷ []; stray = false },
        ground (arith, find_blk-div c off tidy first, find_blk-div c (off - 1) tidy first),
        record {
          tidy = refl;
          reached = omega (arith, length-append c.blocks (zero_block ∷ []));
          grown = omega (arith, length-append c.blocks (zero_block ∷ []));
          old = λ x l.
              let same : get_or (c.blocks ++ zero_block ∷ []) (x / 4096) zero_block
                  ≡ get_or c.blocks (x / 4096) zero_block =
                ground (arith, get_or-snoc c.blocks (x / 4096) zero_block zero_block) in
              ap (λ (b : Block). b (x % 4096)) same;
        },
      )
]

byte-set_block :
    (xs : List Block) (i x : ℕ) (b : Block)
    → i < length xs
    → get_or (set_block xs i b) (x / 4096) zero_block (x % 4096)
      ≡ (if x / 4096 == i then b (x % 4096) else get_or xs (x / 4096) zero_block (x % 4096))
byte-set_block xs i x b h =
    ap (λ (a : Block). a (x % 4096)) (get_or-set_block xs i (x / 4096) b zero_block h)
    ∙ ground arith

-- The first slice is stored in the start block.
first-IsStored :
    (m : Memory) (buf off n i : ℕ) (c c0 : Chain)
    → i ≡ off / 4096
    → 0 < n
    → IsStart off i c c0
    → IsStored m buf off (off + first_slice off n) c (record c0 {
      blocks =
          set_block c0.blocks i
            (copy_in m buf (get_or c0.blocks i zero_block) (off % 4096) (first_slice off n));
    })
first-IsStored m buf off n i c c0 e some_bytes s =
    let b = copy_in m buf (get_or c0.blocks i zero_block) (off % 4096) (first_slice off n) in
    record {
      tidy = s.tidy;
      grown = omega (arith, length-set_block c0.blocks i b);
      room = ground (arith, length-set_block c0.blocks i b);
      new = λ x lo hi.
          let there : x / 4096 ≡ i = ground arith in
          let place : x % 4096 - off % 4096 ≡ x - off = ground arith in
          byte-set_block c0.blocks i x b s.reached
          ∙ ground (arith, there, ap (λ k. m (buf + k)) place);
      old = λ x l. byte-set_block c0.blocks i x b s.reached ∙ ground (arith, s.old x l);
    }

IsStored-join :
    (m : Memory) (buf lo mid hi : ℕ) (c c1 c2 : Chain)
    → lo ≤ mid
    → mid ≤ hi
    → IsStored m buf lo mid c c1
    → IsStored m (buf + (mid - lo)) mid hi c1 c2
    → IsStored m buf lo hi c c2
IsStored-join m buf lo mid hi c c1 c2 h l s t = record {
  tidy = t.tidy;
  grown = omega arith;
  room = t.room;
  new = λ x p q. elim (Bool-cases (ltb x mid)) [
    | inl early ↦ t.old x (ground arith) ∙ s.new x p (ground arith)
    | inr later ↦
        t.new x (ground arith) q
        ∙ ap m {x = buf + (mid - lo) + (x - mid)} {y = buf + (x - lo)} (ground arith)
  ];
  old = λ x l. t.old x (omega arith) ∙ s.old x l;
}

write_loop-done :
    (f : ℕ) (fresh : Fresh) (m : Memory) (off end buf n i : ℕ) (c : Chain)
    → end ≤ off
    → write_loop (suc f) fresh m off end buf n i c ≡ some c
unfolding write_loop
write_loop-done f fresh m off end buf n i c h = ground arith

-- The file after a write of `n` bytes at `off`: the bytes from memory there, the bytes before as
-- they were, the size grown to the end of the write if that is larger, and still a proper file.
pub record IsWritten (m : Memory) (buf off n : ℕ) (f f' : Content) : Type 0 where
  pub file : IsFile f'
  pub size : f'.size ≡ (if ltb (off + n) f.size then f.size else off + n)
  pub new : (x : ℕ) → off ≤ x → x < off + n → byte_at f'.chain x ≡ m (buf + (x - off))
  pub old : (x : ℕ) → x < off → byte_at f'.chain x ≡ byte_at f.chain x

IsStored-none :
    (m : Memory) (buf lo : ℕ) (c : Chain)
    → c.stray ≡ false
    → lo ≤ 4096 * length c.blocks
    → IsStored m buf lo lo c c
IsStored-none m buf lo c tidy room = record {
  tidy = tidy;
  grown = omega arith;
  room = room;
  new = λ x p q. absurd (omega arith);
  old = λ x l. refl;
}

-- What follows the first slice, whether the loop runs or not.
rest-IsStored :
    (fresh : Fresh) (m : Memory) (off buf n : ℕ) (c c1 : Chain)
    → fresh.stray ≡ false
    → off / 4096 < length c1.blocks
    → IsStored m buf off (off + first_slice off n) c c1
    → let slice = first_slice off n in
      (c2 : Chain) × (write_loop
          (n / 4096 + 2)
          fresh
          m
          (off + slice)
          (off + n)
          (buf + slice)
          n
          (off / 4096)
          c1
        ≡ some c2)
      × IsStored m (buf + slice) (off + slice) (off + n) c1 c2
rest-IsStored fresh m off buf n c c1 clean reached st =
    let slice = first_slice off n in
    let rounds : n / 4096 + 2 ≡ suc (n / 4096 + 1) = omega arith in
    rw rounds (elim (Bool-cases (ltb n (4096 - off % 4096))) [
      | inl fits ↦
          let whole : off + slice ≡ off + n = ground arith in
          (
            c1,
            write_loop-done (n / 4096 + 1) fresh m (off + slice) (off + n) (buf + slice) n
                (off / 4096) c1 (omega arith),
            rw (← whole) (IsStored-none m (buf + slice) (off + slice) c1 st.tidy st.room),
          )
      | inr more ↦
          write_loop-IsStored fresh m clean (n / 4096 + 1) (off + slice) (off + n) (buf + slice) n
            (off / 4096) c1 (ground arith) (ground arith) (ground arith) st.tidy reached
    ])

-- `tmpfs_write` of `n` > 0 bytes to a regular file, at a position within or directly behind its
-- blocks, runs to its end and returns `n`. The bytes then stand in the file, those before `off` are
-- as they were, the size is the larger of the old size and `off + n`, and the file's chain is
-- proper again (ends in a null pointer, holds the size). The position behind the write is below
-- 2^31, and the memory that `malloc` hands out holds a zero where the pointer to the next block
-- goes.
pub write_content-IsWritten :
    (fresh : Fresh) (m : Memory) (off buf n : ℕ) (f : Content)
    → fresh.stray ≡ false
    → IsFile f
    → 0 < n
    → off ≤ 4096 * length f.chain.blocks
    → off + n < 2 ^ 31
    → (f' : Content) × (write_content fresh m off buf n f ≡ some (pos n, f'))
      × IsWritten m buf off n f f'
unfolding write_content
write_content-IsWritten fresh m off buf n f clean file some_bytes room small =
    let slice = first_slice off n in
    let i = off / 4096 in
    let (c0, e0, s0) = start_blk-IsStart off f.chain file.tidy file.first room in
    let b = copy_in m buf (get_or c0.blocks i zero_block) (off % 4096) slice in
    let c1 = record c0 { blocks = set_block c0.blocks i b } in
    let st1 = first-IsStored m buf off n i f.chain c0 refl some_bytes s0 in
    let reached : i < length c1.blocks =
      omega (arith, s0.reached, length-set_block c0.blocks i b) in
    let (c2, e2, st2) = rest-IsStored fresh m off buf n f.chain c1 clean reached st1 in
    let nonempty : (n == 0) ≡ false = ground arith in
    let wide : u32 (off + n) ≡ off + n = omega arith in
    let result : to_int n ≡ pos n = ground arith in
    let back : buf + (off + slice - off) ≡ buf + slice = omega arith in
    let st =
      IsStored-join m buf off (off + slice) (off + n) f.chain c1 c2 (omega arith) (ground arith) st1
        (rw back st2) in
    (
      record { size = if ltb (off + n) f.size then f.size else off + n; chain = c2 },
      rw (nonempty, e0, wide, e2, wide, result),
      record {
        file = record {
          tidy = st.tidy;
          first = omega (arith, file.first, st.grown);
          room = ground (arith, st.room, st.grown, file.room);
        };
        size = refl;
        new = st.new;
        old = st.old;
      },
    )
