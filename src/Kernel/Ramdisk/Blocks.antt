-- ===== src/Kernel/Ramdisk/Blocks.antt =====
-- What reading and writing RAM disk blocks does.
use oldasternix.Prelude.{ℕ, ◌+◌, ◌*◌, ◌/◌, ◌^◌, ◌≤◌, ◌<◌, ◌≡◌, ◌≢◌, ◌⊎◌, arith}
use oldasternix.Prelude.Int.{pos, neg}
use oldasternix.Libc.Memory.{Memory, bytes, bytes_ext}
use oldasternix.Libc.Block.{memcpy, memcpy_lem}
use oldasternix.Kernel.Errno.{efault, enodev}
use oldasternix.Kernel.Device.{major, minor, major-minor-dev, null_dev, blk_ramdisk}
use oldasternix.Kernel.Machine.{Machine}
use oldasternix.Kernel.Ramdisk.{
  max_ramdisk, add_ramdisk, ramdisk_getblksize, ramdisk_readblk, ramdisk_writeblk,
}

-- `memcpy` between ranges that do not meet carries the source over and changes nothing else.
pub memcpy-bytes :
    (m : Memory) (dest src n : ℕ)
    → (dest + n ≤ src) ⊎ (src + n ≤ dest)
    → bytes (memcpy m dest src n) dest n ≡ bytes m src n
memcpy-bytes m dest src n apart =
    bytes_ext _ m dest src n (λ i l. ground (arith, memcpy_lem m dest src n (dest + i)))

-- Disk `i` is in use, with blocks of `size` bytes that start at `bufs`.
pub record IsDisk (w : Machine) (i : ℕ) : Type 0 where
  pub slot : i < max_ramdisk
  pub mapped : (w.ramdisks i).bufs ≢ 0
  pub nonzero : 0 < (w.ramdisks i).blksize
  pub small : (w.ramdisks i).blksize < 2 ^ 31

-- Below eight disks, `add_ramdisk` of a buffer that is not null returns the device number of the
-- next minor, at which the driver now reports the block size, counts one disk more and leaves the
-- disks before it alone.
pub add_ramdisk-next :
    (blksize bufs size : ℕ) (w : Machine)
    → w.rd_idx < max_ramdisk
    → bufs ≢ 0
    → let (d, w') = add_ramdisk blksize bufs size w in
      (major d ≡ blk_ramdisk)
      × (minor d ≡ w.rd_idx)
      × (ramdisk_getblksize d w' ≡ blksize)
      × (w'.rd_idx ≡ w.rd_idx + 1)
      × ((i : ℕ) → i < w.rd_idx → w'.ramdisks i ≡ w.ramdisks i)
unfolding add_ramdisk ramdisk_getblksize
add_ramdisk-next blksize bufs size w h ne = (
  ground (arith, major-minor-dev blk_ramdisk w.rd_idx),
  ground (arith, major-minor-dev blk_ramdisk w.rd_idx),
  ground (arith, major-minor-dev blk_ramdisk w.rd_idx),
  ground arith,
  λ i l. ground arith,
)

-- Once eight disks are in use, `add_ramdisk` returns the null device and changes nothing.
pub add_ramdisk-full :
    (blksize bufs size : ℕ) (w : Machine)
    → max_ramdisk ≤ w.rd_idx
    → add_ramdisk blksize bufs size w ≡ (null_dev, w)
unfolding add_ramdisk
add_ramdisk-full blksize bufs size w h = ground arith

-- A device that is no disk has block size 0, and reading and writing it fails with ENODEV and
-- changes nothing.
pub ramdisk-no_disk :
    (d blk buf : ℕ) (w : Machine)
    → (max_ramdisk ≤ minor d) ⊎ ((w.ramdisks (minor d)).bufs ≡ 0)
    → (ramdisk_getblksize d w ≡ 0)
      × (ramdisk_readblk d blk buf w ≡ (neg enodev, w))
      × (ramdisk_writeblk d blk buf w ≡ (neg enodev, w))
unfolding ramdisk_getblksize ramdisk_readblk ramdisk_writeblk
ramdisk-no_disk d blk buf w h = (ground arith, ground arith, ground arith)

-- The address of block `blk` of disk `i`.
abbrev pub block_address : Machine → ℕ → ℕ → ℕ
block_address w i blk = (w.ramdisks i).bufs + blk * (w.ramdisks i).blksize

-- A RAM disk block that is written and then read back, through buffers that do not meet the block,
-- arrives unchanged, and both calls return the block size. The disk is in use with a block size
-- that is not 0 and below 2^31, the block number passes the range check of the read, and the
-- block's offset is below 2^32.
pub ramdisk_readblk-writeblk :
    (d blk from to : ℕ) (w : Machine)
    → let rd = w.ramdisks (minor d) in
      let p = block_address w (minor d) blk in
      IsDisk w (minor d)
      → blk ≤ rd.size / rd.blksize
      → blk * rd.blksize < 2 ^ 32
      → (p + rd.blksize ≤ from) ⊎ (from + rd.blksize ≤ p)
      → (to + rd.blksize ≤ p) ⊎ (p + rd.blksize ≤ to)
      → let (r, w') = ramdisk_writeblk d blk from w in
        let (r', w'') = ramdisk_readblk d blk to w' in
        (r ≡ pos rd.blksize)
        × (r' ≡ pos rd.blksize)
        × (bytes w''.memory to rd.blksize ≡ bytes w.memory from rd.blksize)
unfolding ramdisk_readblk ramdisk_writeblk
ramdisk_readblk-writeblk d blk from to w disk inside small apart apart' =
    let rd = w.ramdisks (minor d) in
    let p = block_address w (minor d) blk in
    let m' = memcpy w.memory p from rd.blksize in
    (
      ground arith,
      ground arith,
      ground (
        arith,
        memcpy-bytes w.memory p from rd.blksize apart,
        memcpy-bytes m' to p rd.blksize apart',
      ),
    )

-- The range check of `ramdisk_readblk` lets one block too many pass: when the size of a disk in
-- use, below 2^32, is a multiple of the block size, block number `size / blksize` is read from the
-- memory behind the disk, into a buffer that does not meet that memory.
pub ramdisk_readblk-past_end :
    (d to : ℕ) (w : Machine)
    → let rd = w.ramdisks (minor d) in
      let blk = rd.size / rd.blksize in
      IsDisk w (minor d)
      → rd.size ≡ blk * rd.blksize
      → rd.size < 2 ^ 32
      → (to + rd.blksize ≤ rd.bufs + rd.size) ⊎ (rd.bufs + rd.size + rd.blksize ≤ to)
      → let (r, w') = ramdisk_readblk d blk to w in
        (r ≡ pos rd.blksize)
        × (bytes w'.memory to rd.blksize ≡ bytes w.memory (rd.bufs + rd.size) rd.blksize)
unfolding ramdisk_readblk
ramdisk_readblk-past_end d to w disk whole small apart =
    let rd = w.ramdisks (minor d) in
    (ground arith, ground (arith, memcpy-bytes w.memory to (rd.bufs + rd.size) rd.blksize apart))

-- Beyond that block the check works: EFAULT, and nothing is changed.
pub ramdisk_readblk-fault :
    (d blk to : ℕ) (w : Machine)
    → IsDisk w (minor d)
    → (w.ramdisks (minor d)).size / (w.ramdisks (minor d)).blksize < blk
    → ramdisk_readblk d blk to w ≡ (neg efault, w)
unfolding ramdisk_readblk
ramdisk_readblk-fault d blk to w disk h = ground arith

-- `ramdisk_writeblk` has no range check: whatever the size of a disk in use, it succeeds at every
-- block number whose offset is below 2^32 and stores the block at its address, from a buffer that
-- does not meet the block.
pub ramdisk_writeblk-unchecked :
    (d blk from : ℕ) (w : Machine)
    → let rd = w.ramdisks (minor d) in
      let p = block_address w (minor d) blk in
      IsDisk w (minor d)
      → blk * rd.blksize < 2 ^ 32
      → (p + rd.blksize ≤ from) ⊎ (from + rd.blksize ≤ p)
      → let (r, w') = ramdisk_writeblk d blk from w in
        (r ≡ pos rd.blksize) × (bytes w'.memory p rd.blksize ≡ bytes w.memory from rd.blksize)
unfolding ramdisk_writeblk
ramdisk_writeblk-unchecked d blk from w disk small apart =
    let rd = w.ramdisks (minor d) in
    (
      ground arith,
      ground (arith, memcpy-bytes w.memory (block_address w (minor d) blk) from rd.blksize apart),
    )
