-- ===== src/Kernel/Tmpfs/Devices.antt =====
-- Reading and writing through the file system: which inodes reach a driver, and which fail.
use Prim.Native.Nat.{bit_and}
use oldasternix.Prelude.{ℕ, ◌<◌, ◌≡◌, refl, true, some, List, ◌==◌, ==_iff, arith}
use oldasternix.Prelude.Bits.{all_below, all_below-elim, bit_and-mask}
use oldasternix.Prelude.Int.{neg}
use oldasternix.Prelude.Word.{u32}
use oldasternix.Kernel.Console.{vconsole_write}
use oldasternix.Kernel.Device.{dev, chr_tty}
use oldasternix.Kernel.Drivers.{Tables, empty, read_char, write_char, read_block, write_block}
use oldasternix.Kernel.Errno.{eperm, eisdir}
use oldasternix.Kernel.Initcalls.{Initcall, tty, contains, initcall_tables}
use oldasternix.Kernel.Initcalls.Devices.{console_device}
use oldasternix.Kernel.Keyboard.{vconsole_read}
use oldasternix.Kernel.Machine.{Machine}
use oldasternix.Kernel.Ports.{Hardware}
use oldasternix.Kernel.Tmpfs.Calls.{System, from_driver, tmpfs_read, tmpfs_write}
use oldasternix.Kernel.Tmpfs.{Inode, Store, tmpfs_mount, it_type, it_dir, it_chr, it_blk, i_perms}
use oldasternix.Kernel.Tmpfs.Chain.{Fresh}

module _ (t : Tables Machine) (fresh : Fresh) (p off buf n : ℕ) (y : System) (i : Inode)
    (holds : y.store p ≡ some i) where
  -- A directory can be neither read nor written: EISDIR, and nothing is changed.
  pub tmpfs_directory :
      bit_and i.mode it_type ≡ it_dir
      → (tmpfs_write t fresh p off buf n y ≡ some (neg eisdir, y))
        × (tmpfs_read t p off buf n y ≡ some (neg eisdir, y))
  unfolding tmpfs_write tmpfs_read
  tmpfs_directory kind = (rw (holds, kind), rw (holds, kind))

  -- A character device is read and written by its driver, at the inode's device number; the file
  -- system itself does not change.
  pub tmpfs_char :
      bit_and i.mode it_type ≡ it_chr
      → (tmpfs_write t fresh p off buf n y
          ≡ from_driver y.store (write_char t i.dev_type off buf n y.machine))
        × (tmpfs_read t p off buf n y
            ≡ from_driver y.store (read_char t i.dev_type off buf n y.machine))
  unfolding tmpfs_write tmpfs_read
  tmpfs_char kind = (rw (holds, kind), rw (holds, kind))

  -- A block device is read and written one block at a time: the position is the block number, and
  -- the count is not used.
  pub tmpfs_block :
      bit_and i.mode it_type ≡ it_blk
      → (tmpfs_write t fresh p off buf n y
          ≡ from_driver y.store (write_block t i.dev_type (u32 off) buf y.machine))
        × (tmpfs_read t p off buf n y
            ≡ from_driver y.store (read_block t i.dev_type (u32 off) buf y.machine))
  unfolding tmpfs_write tmpfs_read
  tmpfs_block kind = (rw (holds, kind), rw (holds, kind))

perms_table : all_below 512 (λ x. bit_and x it_type == 0) ≡ true
unfolding all_below
perms_table = refl

perms_kind : (flags : ℕ) → bit_and (bit_and flags i_perms) it_type ≡ 0
perms_kind flags =
    let small : bit_and flags i_perms < 512 = omega (arith, bit_and-mask 9 flags) in
    (==_iff (bit_and (bit_and flags i_perms) it_type) 0).0
      (all_below-elim 512 (λ x. bit_and x it_type == 0) (bit_and flags i_perms) perms_table small)

-- The root inode of a mounted file system is not marked as a directory: writing to it and reading
-- it fail with EPERM, not with EISDIR, and change nothing.
pub tmpfs_mount-kind :
    (t : Tables Machine) (fresh : Fresh) (root fs flags off buf n : ℕ) (s : Store) (w : Machine)
    → let y : System = record { store = tmpfs_mount root fs flags s; machine = w } in
      (tmpfs_write t fresh root off buf n y ≡ some (neg eperm, y))
      × (tmpfs_read t root off buf n y ≡ some (neg eperm, y))
unfolding tmpfs_mount tmpfs_write tmpfs_read
tmpfs_mount-kind t fresh root fs flags off buf n s w =
    let self : (root == root) ≡ true = ground arith in
    (rw self (rw (perms_kind flags)), rw self (rw (perms_kind flags)))

-- After boot with the terminal's initcall among those that ran, a character device inode with
-- device number 2:0 is the console: reading it through the file system takes from the keyboard
-- queue, writing it prints, and the inodes do not change.
pub tmpfs_console :
    (hw : Hardware) (cs : List Initcall) (fresh : Fresh) (p off buf n : ℕ) (y : System) (i : Inode)
    → contains tty cs ≡ true
    → y.store p ≡ some i
    → bit_and i.mode it_type ≡ it_chr
    → i.dev_type ≡ dev chr_tty 0
    → let t = initcall_tables hw cs (empty Machine) in
      (tmpfs_write t fresh p off buf n y ≡ from_driver y.store (vconsole_write buf n y.machine))
      × (tmpfs_read t p off buf n y ≡ from_driver y.store (vconsole_read buf n y.machine))
tmpfs_console hw cs fresh p off buf n y i here holds kind number =
    let t = initcall_tables hw cs (empty Machine) in
    let calls = tmpfs_char t fresh p off buf n y i holds kind in
    let console = console_device hw cs off buf n y.machine here in
    (ground (arith, calls.0, console.1), ground (arith, calls.1, console.0))
