-- ===== src/Kernel/Drivers.antt =====
-- The driver tables of kernel/drivers/driver.c. A driver is a record of functions that act on the
-- state `W` of the machine, as the structures of kernel/include/drivers/driver.h hold pointers.
pub mod Lookup
use oldasternix.Prelude.{ℕ, Bool, true, false, Option, none, some, ◌==◌, if◌then◌else◌}
use oldasternix.Prelude.Int.{ℤ, pos, neg}
use oldasternix.Kernel.Device.{major}
use oldasternix.Kernel.Errno.{enodev}

-- A character driver: device, position, buffer address, count.
pub record CharDriver (W : Type 0) : Type 0 where
  pub read : ℕ → ℕ → ℕ → ℕ → W → ℤ × W
  pub write : ℕ → ℕ → ℕ → ℕ → W → ℤ × W

-- A block driver: device, block number, buffer address.
pub record BlockDriver (W : Type 0) : Type 0 where
  pub getblksize : ℕ → W → ℕ
  pub readblk : ℕ → ℕ → ℕ → W → ℤ × W
  pub writeblk : ℕ → ℕ → ℕ → W → ℤ × W

-- `char_drivers[256]` and `block_drivers[256]`; a null pointer is `none`.
pub record Tables (W : Type 0) : Type 0 where
  pub char_drivers : ℕ → Option (CharDriver W)
  pub block_drivers : ℕ → Option (BlockDriver W)

-- Both tables are zero at boot.
abbrev pub empty : (W : Type 0) → Tables W
empty W = record { char_drivers = λ _. none; block_drivers = λ _. none }

module _ {W : Type 0} where
  -- The Boolean says whether the number was taken, which the source prints.
  unfoldable pub register_char_driver : ℕ → CharDriver W → Tables W → Tables W × Bool
  register_char_driver n dr t = elim (t.char_drivers n) [
    | some _ ↦ (t, true)
    | none ↦ (record t { char_drivers = λ i. if i == n then some dr else t.char_drivers i }, false)
  ]

  unfoldable pub register_block_driver : ℕ → BlockDriver W → Tables W → Tables W × Bool
  register_block_driver n dr t = elim (t.block_drivers n) [
    | some _ ↦ (t, true)
    | none ↦
        (record t { block_drivers = λ i. if i == n then some dr else t.block_drivers i }, false)
  ]

  pub read_char : Tables W → ℕ → ℕ → ℕ → ℕ → W → ℤ × W
  read_char t dev off buf n w = elim (t.char_drivers (major dev)) [
    | none ↦ (neg enodev, w)
    | some d ↦ d.read dev off buf n w
  ]

  pub write_char : Tables W → ℕ → ℕ → ℕ → ℕ → W → ℤ × W
  write_char t dev off buf n w = elim (t.char_drivers (major dev)) [
    | none ↦ (neg enodev, w)
    | some d ↦ d.write dev off buf n w
  ]

  pub getblksize : Tables W → ℕ → W → ℕ
  getblksize t dev w = elim (t.block_drivers (major dev)) [ none ↦ 0 | some d ↦ d.getblksize dev w ]

  pub read_block : Tables W → ℕ → ℕ → ℕ → W → ℤ × W
  read_block t dev blk buf w = elim (t.block_drivers (major dev)) [
    | none ↦ (neg enodev, w)
    | some d ↦ d.readblk dev blk buf w
  ]

  pub write_block : Tables W → ℕ → ℕ → ℕ → W → ℤ × W
  write_block t dev blk buf w = elim (t.block_drivers (major dev)) [
    | none ↦ (neg enodev, w)
    | some d ↦ d.writeblk dev blk buf w
  ]
