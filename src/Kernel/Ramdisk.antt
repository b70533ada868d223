-- ===== src/Kernel/Ramdisk.antt =====
-- The RAM disks of kernel/drivers/block/ramdisk.c. Where the source divides by a block size of 0,
-- the processor traps; the quotient here is then 0, and the theorems assume a nonzero block size.
pub mod Blocks
use oldasternix.Prelude.{ℕ, ◌+◌, ◌*◌, ◌/◌, ◌==◌, ltb, leb, if◌then◌else◌}
use oldasternix.Prelude.Int.{ℤ, neg}
use oldasternix.Prelude.Word.{u32, to_int}
use oldasternix.Libc.Block.{memcpy}
use oldasternix.Kernel.Errno.{efault, enodev}
use oldasternix.Kernel.Device.{dev, minor, null_dev, blk_ramdisk}
use oldasternix.Kernel.Drivers.{BlockDriver}
use oldasternix.Kernel.Machine.{Machine, RamDisk}

abbrev pub max_ramdisk : ℕ
max_ramdisk = 8

pub add_ramdisk : ℕ → ℕ → ℕ → Machine → ℕ × Machine
add_ramdisk blksize bufs size w = if leb max_ramdisk w.rd_idx then (null_dev, w) else (
  dev blk_ramdisk w.rd_idx,
  record w {
    ramdisks = λ i.
        if i == w.rd_idx
        then record { blksize = blksize; bufs = bufs; size = size }
        else w.ramdisks i;
    rd_idx = w.rd_idx + 1;
  },
)

pub ramdisk_getblksize : ℕ → Machine → ℕ
ramdisk_getblksize d w =
    let rd = w.ramdisks (minor d) in
    if leb max_ramdisk (minor d) then 0 else if rd.bufs == 0 then 0 else rd.blksize

pub ramdisk_readblk : ℕ → ℕ → ℕ → Machine → ℤ × Machine
ramdisk_readblk d blk buf w =
    let rd = w.ramdisks (minor d) in
    if leb max_ramdisk (minor d)
    then (neg enodev, w)
    else if rd.bufs == 0
    then (neg enodev, w)
    else if ltb (rd.size / rd.blksize) blk
    then (neg efault, w)
    else (
      to_int rd.blksize,
      record w { memory = memcpy w.memory buf (rd.bufs + u32 (blk * rd.blksize)) rd.blksize },
    )

pub ramdisk_writeblk : ℕ → ℕ → ℕ → Machine → ℤ × Machine
ramdisk_writeblk d blk buf w =
    let rd = w.ramdisks (minor d) in
    if leb max_ramdisk (minor d)
    then (neg enodev, w)
    else if rd.bufs == 0
    then (neg enodev, w)
    else (
      to_int rd.blksize,
      record w { memory = memcpy w.memory (rd.bufs + u32 (blk * rd.blksize)) buf rd.blksize },
    )

abbrev pub ramdisk_driver : BlockDriver Machine
ramdisk_driver = record {
  getblksize = ramdisk_getblksize;
  readblk = ramdisk_readblk;
  writeblk = ramdisk_writeblk;
}
