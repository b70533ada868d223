-- ===== src/Kernel/Initcalls.antt =====
-- The driver tables that boot leaves behind. `hlinit` (kernel/arch/i686/boot/boot1.c) runs every
-- initcall in link order; three of them register the drivers of this development.
pub mod Devices
use oldasternix.Prelude.{
  ℕ, Bool, true, false, ◌&&◌, ◌||◌, ◌≡◌, refl, Option, none, some, List, [], ◌∷◌, ◌==◌,
  if◌then◌else◌, arith,
}
use oldasternix.Kernel.Device.{chr_memdev, chr_tty, blk_ramdisk}
use oldasternix.Kernel.Drivers.{
  CharDriver, BlockDriver, Tables, empty, register_char_driver, register_block_driver,
}
use oldasternix.Kernel.Drivers.Lookup.{keep_first}
use oldasternix.Kernel.Machine.{Machine}
use oldasternix.Kernel.Memdev.{memdev_driver}
use oldasternix.Kernel.Ports.{Hardware}
use oldasternix.Kernel.Ramdisk.{ramdisk_driver}
use oldasternix.Kernel.Tty.{tty_driver}

-- The initcalls by the driver files that define them.
pub data Initcall : Type 0 where
  memdev tty ramdisk : Initcall

abbrev pub major_of : Initcall → ℕ
major_of memdev = chr_memdev
major_of tty = chr_tty
major_of ramdisk = blk_ramdisk

abbrev pub is_block : Initcall → Bool
is_block ramdisk = true
is_block _ = false

abbrev same : Initcall → Initcall → Bool
same memdev memdev = true
same tty tty = true
same ramdisk ramdisk = true
same _ _ = false

abbrev pub contains : Initcall → List Initcall → Bool
contains c [] = false
contains c (d ∷ ds) = same c d || contains c ds

module _ (hw : Hardware) where
  abbrev pub register_memdev_driver : Tables Machine → Tables Machine × Bool
  register_memdev_driver t = register_char_driver chr_memdev (memdev_driver hw) t

  abbrev pub register_tty_driver : Tables Machine → Tables Machine × Bool
  register_tty_driver t = register_char_driver chr_tty tty_driver t

  abbrev pub register_ramdisk_driver : Tables Machine → Tables Machine × Bool
  register_ramdisk_driver t = register_block_driver blk_ramdisk ramdisk_driver t

  -- The new tables, and whether the driver's number was taken.
  pub register : Initcall → Tables Machine → Tables Machine × Bool
  register memdev t = register_memdev_driver t
  register tty t = register_tty_driver t
  register ramdisk t = register_ramdisk_driver t

  -- The tables once the initcalls `cs` have run.
  unfoldable pub initcall_tables : List Initcall → Tables Machine → Tables Machine
  initcall_tables [] t = t
  initcall_tables (c ∷ cs) t = initcall_tables cs (register c t).0

  -- What stands at major `i` once the initcalls `cs` have run.
  abbrev pub char_slot : List Initcall → ℕ → Option (CharDriver Machine)
  char_slot cs i =
      if contains memdev cs && (i == chr_memdev)
      then some (memdev_driver hw)
      else if contains tty cs && (i == chr_tty)
      then some tty_driver
      else none

  abbrev pub block_slot : List Initcall → ℕ → Option (BlockDriver Machine)
  block_slot cs i = if contains ramdisk cs && (i == blk_ramdisk) then some ramdisk_driver else none

  initcall_tables-keep_first :
      (cs : List Initcall) (t : Tables Machine) (i : ℕ)
      → ((initcall_tables cs t).char_drivers i ≡ keep_first (t.char_drivers i) (char_slot cs i))
        × ((initcall_tables cs t).block_drivers i
            ≡ keep_first (t.block_drivers i) (block_slot cs i))
  unfolding initcall_tables register register_char_driver register_block_driver
  initcall_tables-keep_first [] t i = ground arith
  initcall_tables-keep_first (memdev ∷ cs) t i =
      ground (arith, initcall_tables-keep_first cs (register memdev t).0 i)
  initcall_tables-keep_first (tty ∷ cs) t i =
      ground (arith, initcall_tables-keep_first cs (register tty t).0 i)
  initcall_tables-keep_first (ramdisk ∷ cs) t i =
      ground (arith, initcall_tables-keep_first cs (register ramdisk t).0 i)

  -- Whatever the order in which boot runs the initcalls, and however often one stands in it, each
  -- driver stands at its own major afterwards and every other slot of both tables is empty.
  pub initcall_tables-slots :
      (cs : List Initcall) (i : ℕ)
      → let t = initcall_tables cs (empty Machine) in
        (t.char_drivers i ≡ char_slot cs i) × (t.block_drivers i ≡ block_slot cs i)
  initcall_tables-slots cs i = initcall_tables-keep_first cs (empty Machine) i
