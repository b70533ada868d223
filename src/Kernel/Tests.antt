-- ===== src/Kernel/Tests.antt =====
-- The theorems on device numbers, drivers, ports, memory devices and RAM disks at concrete machines.
use oldasternix.Prelude.{◌≡◌, refl, inl, inr, List, [], ◌∷◌, ◌==◌, if◌then◌else◌, arith}
use oldasternix.Prelude.Int.{pos}
use oldasternix.Libc.Memory.{Memory, bytes}
use oldasternix.Kernel.Device.{minor}
use oldasternix.Kernel.Drivers.{Tables, empty}
use oldasternix.Kernel.Initcalls.{Initcall, memdev, tty, ramdisk, initcall_tables}
use oldasternix.Kernel.Machine.{Machine, at_boot}
use oldasternix.Kernel.Ports.{Hardware}
use oldasternix.Kernel.Ramdisk.{ramdisk_readblk, ramdisk_writeblk}
use oldasternix.Kernel.Ramdisk.Blocks.{IsDisk, ramdisk_readblk-writeblk, ramdisk_readblk-past_end}

-- Memory in which each byte is its address, modulo 256.
abbrev counting : Memory
counting a = a

-- Hardware that answers 7 everywhere.
abbrev sevens : Hardware
sevens bus port = 7

abbrev start : Machine
start = at_boot counting 10_000 20_000

-- One disk: three blocks of 16 bytes at 1000.
abbrev with_disk : Machine
with_disk = record start {
  ramdisks = λ i.
      if i == 0
      then record { blksize = 16; bufs = 1000; size = 48 }
      else record { blksize = 0; bufs = 0; size = 0 };
  rd_idx = 1;
}

with_disk-IsDisk : IsDisk with_disk (minor 1)
unfolding minor
with_disk-IsDisk = record {
  slot = omega arith;
  mapped = omega arith;
  nonzero = omega arith;
  small = omega arith;
}

abbrev order : List Initcall
order = tty ∷ ramdisk ∷ memdev ∷ []

abbrev tables : Tables Machine
tables = initcall_tables sevens order (empty Machine)

ramdisk_readblk-writeblk_example :
    let (r, w') = ramdisk_writeblk 1 2 500 with_disk in
    let (r', w'') = ramdisk_readblk 1 2 600 w' in
    (r ≡ pos 16) × (r' ≡ pos 16) × (bytes w''.memory 600 16 ≡ bytes counting 500 16)
unfolding minor
ramdisk_readblk-writeblk_example =
    ramdisk_readblk-writeblk 1 2 500 600 with_disk with_disk-IsDisk (omega arith) (omega arith)
      (inr (omega arith)) (inl (omega arith))

ramdisk_readblk-past_end_example :
    let (r, w') = ramdisk_readblk 1 3 500 with_disk in
    (r ≡ pos 16) × (bytes w'.memory 500 16 ≡ bytes counting 1048 16)
unfolding minor
ramdisk_readblk-past_end_example =
    ramdisk_readblk-past_end 1 500 with_disk with_disk-IsDisk refl (omega arith) (inl (omega arith))
