-- ===== src/Kernel/Drivers/Lookup.antt =====
-- Which driver a call reaches after registrations.
use oldasternix.Prelude.{
  ℕ, ◌^◌, ◌<◌, ◌≡◌, true, false, Option, none, some, ◌==◌, if◌then◌else◌, arith,
}
use oldasternix.Prelude.Int.{neg}
use oldasternix.Kernel.Device.{dev, major, major-minor-dev}
use oldasternix.Kernel.Errno.{enodev}
use oldasternix.Kernel.Drivers.{
  CharDriver, BlockDriver, Tables, register_char_driver, register_block_driver, read_char,
  write_char, getblksize, read_block, write_block,
}

-- The slot of a table after one more driver asked for major `n`.
abbrev pub keep_first : {D : Type 0} → Option D → Option D → Option D
keep_first (some d) e = some d
keep_first none e = e

module _ {W : Type 0} (t : Tables W) (n : ℕ) where
  -- Registering a character driver fills its own slot if that is free, and changes no other slot
  -- and no block driver. The error line is printed exactly when the slot was taken.
  pub register_char_driver-slots :
      (e : CharDriver W)
      → let (t', printed) = register_char_driver n e t in
        ((i : ℕ)
          → t'.char_drivers i ≡ keep_first (t.char_drivers i) (if i == n then some e else none))
        × ((i : ℕ) → t'.block_drivers i ≡ t.block_drivers i)
        × (printed ≡ elim (t.char_drivers n) [ some _ ↦ true | none ↦ false ])
  unfolding register_char_driver
  register_char_driver-slots e = (λ i. ground arith, λ i. ground arith, ground arith)

  -- The same for block drivers.
  pub register_block_driver-slots :
      (e : BlockDriver W)
      → let (t', printed) = register_block_driver n e t in
        ((i : ℕ)
          → t'.block_drivers i ≡ keep_first (t.block_drivers i) (if i == n then some e else none))
        × ((i : ℕ) → t'.char_drivers i ≡ t.char_drivers i)
        × (printed ≡ elim (t.block_drivers n) [ some _ ↦ true | none ↦ false ])
  unfolding register_block_driver
  register_block_driver-slots e = (λ i. ground arith, λ i. ground arith, ground arith)

module _ {W : Type 0} (t : Tables W) (a b : ℕ) (ha : a < 256) (hb : b < 2 ^ 24) where
  major_lem : major (dev a b) ≡ a
  major_lem = (major-minor-dev a b ha hb).0

  -- With no driver for its major, reading and writing a character device fails with ENODEV and
  -- changes nothing.
  pub char-no_driver :
      (off buf len : ℕ) (w : W)
      → t.char_drivers a ≡ none
      → (read_char t (dev a b) off buf len w ≡ (neg enodev, w))
        × (write_char t (dev a b) off buf len w ≡ (neg enodev, w))
  unfolding read_char write_char
  char-no_driver off buf len w h = ground (arith, major_lem, h)

  -- Else they are the driver's own functions, at the same device number.
  pub char-driver :
      (d : CharDriver W) (off buf len : ℕ) (w : W)
      → t.char_drivers a ≡ some d
      → (read_char t (dev a b) off buf len w ≡ d.read (dev a b) off buf len w)
        × (write_char t (dev a b) off buf len w ≡ d.write (dev a b) off buf len w)
  unfolding read_char write_char
  char-driver d off buf len w h = ground (arith, major_lem, h)

  -- With no driver for its major, a block device has block size 0, and reading and writing it fails
  -- with ENODEV and changes nothing.
  pub block-no_driver :
      (blk buf : ℕ) (w : W)
      → t.block_drivers a ≡ none
      → (read_block t (dev a b) blk buf w ≡ (neg enodev, w))
        × (write_block t (dev a b) blk buf w ≡ (neg enodev, w))
        × (getblksize t (dev a b) w ≡ 0)
  unfolding read_block write_block getblksize
  block-no_driver blk buf w h = ground (arith, major_lem, h)

  -- Else they are the driver's own functions, at the same device number.
  pub block-driver :
      (d : BlockDriver W) (blk buf : ℕ) (w : W)
      → t.block_drivers a ≡ some d
      → (read_block t (dev a b) blk buf w ≡ d.readblk (dev a b) blk buf w)
        × (write_block t (dev a b) blk buf w ≡ d.writeblk (dev a b) blk buf w)
        × (getblksize t (dev a b) w ≡ d.getblksize (dev a b) w)
  unfolding read_block write_block getblksize
  block-driver d blk buf w h = ground (arith, major_lem, h)

  -- A character driver that found its major (below 2^8) free serves every device of that major from
  -- then on: a later registration, for whichever major, does not take reads and writes away from
  -- it.
  pub read_char-register_twice :
      (d e : CharDriver W) (n off buf len : ℕ) (w : W)
      → t.char_drivers a ≡ none
      → let t' = (register_char_driver n e (register_char_driver a d t).0).0 in
        (read_char t' (dev a b) off buf len w ≡ d.read (dev a b) off buf len w)
        × (write_char t' (dev a b) off buf len w ≡ d.write (dev a b) off buf len w)
  unfolding register_char_driver read_char write_char
  read_char-register_twice d e n off buf len w free = ground (arith, major_lem)
