-- ===== src/Kernel/Tmpfs/FileData/RoundTrip.antt =====
-- `tmpfs_read` on a regular file behind a `tmpfs_write`, and a whole read.
use oldasternix.Prelude.{
  ℕ, ◌+◌, ◌-◌, ◌*◌, ◌/◌, ◌%◌, ◌^◌, ◌≤◌, ◌<◌, ◌≡◌, ap, ◌∙◌, false, ◌||◌, some, ◌==◌, ltb, leb,
  if◌then◌else◌, length, min, arith,
}
use oldasternix.Prelude.Int.{pos}
use oldasternix.Prelude.Word.{u32, to_int}
use oldasternix.Libc.Memory.{Memory, bytes, bytes_ext}
use oldasternix.Kernel.Tmpfs.Chain.{Fresh, copy_out, find_blk}
use oldasternix.Kernel.Tmpfs.FileData.{
  Content, first_slice, trimmed, read_part, read_content, write_content,
}
use oldasternix.Kernel.Tmpfs.FileData.Walk.{find_blk-div}
use oldasternix.Kernel.Tmpfs.FileData.Rounds.{block}
use oldasternix.Kernel.Tmpfs.FileData.Store.{IsFile, write_content-IsWritten}
use oldasternix.Kernel.Tmpfs.FileData.Load.{IsLoaded, IsLoaded-join, first-IsLoaded, rest-IsLoaded}

-- The number of bytes that a read of `n` at `off` delivers.
abbrev pub available : Content → ℕ → ℕ → ℕ
available f off n = min n (f.size - off)

read_part-IsLoaded :
    (m : Memory) (off buf k : ℕ) (f : Content)
    → IsFile f
    → 0 < k
    → off + k ≤ f.size
    → f.size < 2 ^ 31
    → (m' : Memory) × (read_part m off buf k f ≡ some (pos k, m'))
      × IsLoaded f.chain buf off (off + k) m m'
unfolding read_part
read_part-IsLoaded m off buf k f file some_bytes inside sized =
    let c = f.chain in
    let slice = first_slice off k in
    let open_file : (leb f.size off || (k == 0)) ≡ false = ground arith in
    let found : find_blk c off ≡ some (some (off / 4096)) =
      ground (arith, find_blk-div c off file.tidy file.first) in
    let m1 = copy_out (block c (off / 4096)) (off % 4096) m buf slice in
    let (m2, e, s) = rest-IsLoaded c off buf k m1 (omega arith) in
    let wide : u32 (off + k) ≡ off + k = omega arith in
    let result : to_int k ≡ pos k = ground arith in
    let back : buf + (off + slice - off) ≡ buf + slice = omega arith in
    (
      m2,
      rw (open_file, found, wide, e, result),
      IsLoaded-join c buf off (off + slice) (off + k) m m1 m2 (omega arith)
          (first-IsLoaded c m buf off k) (rw back s),
    )

-- `tmpfs_read` of `n` > 0 bytes of a regular file at a position before its end runs to its end,
-- returns the number of bytes up to the end of the file, at most `n`, puts those bytes of the file
-- into the buffer and changes nothing before the buffer. The chain of blocks is proper, and the
-- size and `off + n` are below 2^31.
pub read_content-IsLoaded :
    (m : Memory) (off buf n : ℕ) (f : Content)
    → IsFile f
    → 0 < n
    → off < f.size
    → off + n < 2 ^ 31
    → f.size < 2 ^ 31
    → let k = available f off n in
      (m' : Memory) × (read_content m off buf n f ≡ some (pos k, m'))
      × IsLoaded f.chain buf off (off + k) m m'
unfolding read_content
read_content-IsLoaded m off buf n f file some_bytes inside small sized =
    let cut : trimmed f off n ≡ available f off n = ground arith in
    rw cut
      (read_part-IsLoaded m off buf (available f off n) f file (omega arith) (omega arith) sized)

-- At the end of the file and behind it there is nothing to read: 0, and the buffer is untouched.
pub read_content-end :
    (m : Memory) (off buf n : ℕ) (f : Content)
    → f.size ≤ off
    → read_content m off buf n f ≡ some (pos 0, m)
unfolding read_content read_part
read_content-end m off buf n f h = ground arith

-- What `tmpfs_write` puts into a regular file, `tmpfs_read` gets back: after a write of `n` > 0
-- bytes at `off`, a read of the same range into any buffer returns `n` and the same bytes; both
-- calls run to their end. The position lies within or directly behind the file's blocks, the chain
-- of blocks ends in a null pointer, the position behind the write and the file's size are below
-- 2^31, and the memory that `malloc` hands out holds a zero where the pointer to the next block
-- goes.
pub read_content-write_content :
    (fresh : Fresh) (m k : Memory) (off buf to n : ℕ) (f : Content)
    → fresh.stray ≡ false
    → IsFile f
    → 0 < n
    → off ≤ 4096 * length f.chain.blocks
    → off + n < 2 ^ 31
    → f.size < 2 ^ 31
    → (f' : Content) × (k' : Memory) × (write_content fresh m off buf n f ≡ some (pos n, f'))
      × (read_content k off to n f' ≡ some (pos n, k'))
      × (bytes k' to n ≡ bytes m buf n)
read_content-write_content fresh m k off buf to n f clean file some_bytes room small sized =
    let (f', e, w) = write_content-IsWritten fresh m off buf n f clean file some_bytes room small in
    let size : f'.size ≡ (if ltb (off + n) f.size then f.size else off + n) = w.size in
    let whole : available f' off n ≡ n = ground arith in
    let (k', e', l) =
      read_content-IsLoaded k off to n f' w.file some_bytes (ground arith) small (ground arith) in
    (
      f',
      k',
      e,
      e' ∙ ap (λ t. some (pos t, k')) whole,
      bytes_ext k' m to buf n (λ i h.
          let start : to + i ≡ to + (off + i - off) = omega arith in
          let same : buf + (off + i - off) ≡ buf + i = omega arith in
          ap k' start
          ∙ l.new (off + i) (omega arith) (omega (arith, whole))
          ∙ w.new (off + i) (omega arith) (omega arith)
          ∙ ap m same),
    )
