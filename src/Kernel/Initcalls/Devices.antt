-- ===== src/Kernel/Initcalls/Devices.antt =====
-- The device files as a caller of `read_char` and `write_char` sees them after boot.
use oldasternix.Prelude.{
  ℕ, ◌+◌, ◌^◌, ◌≤◌, ◌<◌, ◌≡◌, ◌⊎◌, refl, true, List, ◌∷◌, if◌then◌else◌, replicate, zero, suc, ap,
  ◌∙◌, arith,
}
use oldasternix.Prelude.Int.{pos, neg}
use oldasternix.Libc.Memory.{Memory, bytes, bytes_ext}
use oldasternix.Libc.Block.{memset, memset_lem, within}
use oldasternix.Kernel.Device.{dev, chr_memdev, chr_tty, major-minor-dev}
use oldasternix.Kernel.Drivers.{Tables, empty, read_char, write_char}
use oldasternix.Kernel.Drivers.Lookup.{char-driver}
use oldasternix.Kernel.Errno.{enodev, enospc}
use oldasternix.Kernel.Initcalls.{
  Initcall, memdev, tty, contains, initcall_tables, initcall_tables-slots, char_slot,
}
use oldasternix.Kernel.Keyboard.{vconsole_read}
use oldasternix.Kernel.Console.{vconsole_write}
use oldasternix.Kernel.Machine.{Machine}
use oldasternix.Kernel.Memdev.{
  memdev_read, memdev_write, memdev_driver, null_minor, zero_minor, full_minor, random_minor,
}
use oldasternix.Kernel.Ports.{Hardware}
use oldasternix.Kernel.Tty.{tty_read, tty_write, tty_driver}

bytes-memset : (m : Memory) (p n : ℕ) → bytes (memset m p 0 n) p n ≡ replicate n 0
unfolding bytes
bytes-memset m p n =
    bytes_ext (memset m p 0 n) (λ _. 0) p p n (λ i l. ground (arith, memset_lem m p 0 n (p + i)))
    ∙ zeros p n
  where
    zeros : (q k : ℕ) → bytes (λ _. 0) q k ≡ replicate k 0
    zeros q zero = refl
    zeros q (suc k) = ap (λ t. 0 ∷ t) (zeros (q + 1) k)

module _ (hw : Hardware) (cs : List Initcall) (off buf n : ℕ) (w : Machine) where
  abbrev booted : Tables Machine
  booted = initcall_tables hw cs (empty Machine)

  slot : (a : ℕ) → booted.char_drivers a ≡ char_slot hw cs a
  slot a = (initcall_tables-slots hw cs a).0

  memdev_calls :
      (b : ℕ)
      → contains memdev cs ≡ true
      → b < 2 ^ 24
      → (read_char booted (dev 1 b) off buf n w ≡ memdev_read hw (dev 1 b) off buf n w)
        × (write_char booted (dev 1 b) off buf n w ≡ memdev_write hw (dev 1 b) off buf n w)
  memdev_calls b here l =
      char-driver booted 1 b (omega arith) l (memdev_driver hw) off buf n w
        (ground (arith, slot 1, here))

  -- /dev/null is always at its end and takes everything; neither call changes anything.
  pub null_device :
      contains memdev cs ≡ true
      → n < 2 ^ 31
      → (read_char booted (dev chr_memdev null_minor) off buf n w ≡ (pos 0, w))
        × (write_char booted (dev chr_memdev null_minor) off buf n w ≡ (pos n, w))
  unfolding memdev_read memdev_write
  null_device here small = ground (arith, memdev_calls 1 here, major-minor-dev 1 1)

  -- After boot with the memory devices' initcall among those that ran, a read of fewer than 2^31
  -- bytes of device 1:2 (/dev/zero) fills the buffer with zeros and writes nothing else to memory;
  -- a write takes everything and changes nothing.
  pub zero_device :
      contains memdev cs ≡ true
      → n < 2 ^ 31
      → let (r, w') = read_char booted (dev chr_memdev zero_minor) off buf n w in
        (r ≡ pos n)
        × (bytes w'.memory buf n ≡ replicate n 0)
        × ((x : ℕ) → w'.memory x ≡ (if within buf n x then 0 else w.memory x))
        × (write_char booted (dev chr_memdev zero_minor) off buf n w ≡ (pos n, w))
  unfolding memdev_read memdev_write
  zero_device here small =
      rw
        ((memdev_calls 2 here (omega arith)).0, (major-minor-dev 1 2 (omega arith) (omega arith)).1)
        (
          ground arith,
          bytes-memset w.memory buf n,
          (λ x. memset_lem w.memory buf 0 n x),
          ground (arith, memdev_calls 2 here, major-minor-dev 1 2),
        )

  -- /dev/full reads as zeros, and every write to it fails with ENOSPC and changes nothing.
  pub full_device :
      contains memdev cs ≡ true
      → n < 2 ^ 31
      → let (r, w') = read_char booted (dev chr_memdev full_minor) off buf n w in
        (r ≡ pos n)
        × (bytes w'.memory buf n ≡ replicate n 0)
        × (write_char booted (dev chr_memdev full_minor) off buf n w ≡ (neg enospc, w))
  unfolding memdev_read memdev_write
  full_device here small =
      rw
        ((memdev_calls 3 here (omega arith)).0, (major-minor-dev 1 3 (omega arith) (omega arith)).1)
        (
          ground arith,
          bytes-memset w.memory buf n,
          ground (arith, memdev_calls 3 here, major-minor-dev 1 3),
        )

  -- After boot with the memory devices' initcall among those that ran, the minor numbers 5 (the
  -- `MEMDEV_RANDOM` of the enumeration), 0 and from 7 on are no memory devices: reading and writing
  -- them fails with ENODEV and changes nothing.
  pub memdev-no_device :
      (b : ℕ)
      → contains memdev cs ≡ true
      → b < 2 ^ 24
      → (b ≡ random_minor) ⊎ (b ≡ 0) ⊎ (7 ≤ b)
      → (read_char booted (dev chr_memdev b) off buf n w ≡ (neg enodev, w))
        × (write_char booted (dev chr_memdev b) off buf n w ≡ (neg enodev, w))
  unfolding memdev_read memdev_write
  memdev-no_device b here l which = ground (arith, memdev_calls b here, major-minor-dev 1 b)

  -- The console device is the keyboard queue to a reader and the display to a writer.
  pub console_device :
      contains tty cs ≡ true
      → (read_char booted (dev chr_tty 0) off buf n w ≡ vconsole_read buf n w)
        × (write_char booted (dev chr_tty 0) off buf n w ≡ vconsole_write buf n w)
  unfolding tty_read tty_write
  console_device here =
      let calls =
        char-driver booted 2 0 (omega arith) (omega arith) tty_driver off buf n w
          (ground (arith, slot 2, here)) in
      ground (arith, major-minor-dev 2 0, calls)
