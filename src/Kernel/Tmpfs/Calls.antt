-- ===== src/Kernel/Tmpfs/Calls.antt =====
-- `tmpfs_write` and `tmpfs_read` of kernel/fs/tmpfs.c, by the kind of inode.
use Prim.Native.Nat.{bit_and}
use oldasternix.Prelude.{ℕ, Option, none, some, ◌==◌, if◌then◌else◌}
use oldasternix.Prelude.Int.{ℤ, neg}
use oldasternix.Prelude.Word.{u32}
use oldasternix.Kernel.Drivers.{Tables, read_char, write_char, read_block, write_block}
use oldasternix.Kernel.Errno.{eperm, eisdir}
use oldasternix.Kernel.Machine.{Machine}
use oldasternix.Kernel.Tmpfs.Chain.{Fresh}
use oldasternix.Kernel.Tmpfs.FileData.{Content, read_content, write_content}
use oldasternix.Kernel.Tmpfs.{
  Body, regular, Store, put, with_inode, it_reg, it_dir, it_blk, it_chr, it_type,
}

-- The state of a call that may reach a driver.
pub record System : Type 0 where
  pub store : Store
  pub machine : Machine

abbrev pub from_driver : Store → ℤ × Machine → Option (ℤ × System)
from_driver s (r, w) = some (r, record { store = s; machine = w })

abbrev pub with_content : {R : Type 0} → Body → (Content → Option R) → Option R
with_content (regular c) k = k c
with_content _ k = none

unfoldable pub tmpfs_write : Tables Machine → Fresh → ℕ → ℕ → ℕ → ℕ → System → Option (ℤ × System)
tmpfs_write t fresh ifile off buf n y = with_inode (y.store ifile) λ i.
    if bit_and i.mode it_type == it_dir
    then some (neg eisdir, y)
    else if bit_and i.mode it_type == it_chr
    then from_driver y.store (write_char t i.dev_type off buf n y.machine)
    else if bit_and i.mode it_type == it_blk
    then from_driver y.store (write_block t i.dev_type (u32 off) buf y.machine)
    else if bit_and i.mode it_type == it_reg
    then with_content i.body (λ c. elim (write_content fresh y.machine.memory off buf n c) [
      | none ↦ none
      | some (r, c') ↦
          some (r, record y { store = put ifile (record i { body = regular c' }) y.store })
    ])
    else some (neg eperm, y)

unfoldable pub tmpfs_read : Tables Machine → ℕ → ℕ → ℕ → ℕ → System → Option (ℤ × System)
tmpfs_read t ifile off buf n y = with_inode (y.store ifile) λ i.
    if bit_and i.mode it_type == it_dir
    then some (neg eisdir, y)
    else if bit_and i.mode it_type == it_chr
    then from_driver y.store (read_char t i.dev_type off buf n y.machine)
    else if bit_and i.mode it_type == it_blk
    then from_driver y.store (read_block t i.dev_type (u32 off) buf y.machine)
    else if bit_and i.mode it_type == it_reg
    then with_content i.body (λ c. elim (read_content y.machine.memory off buf n c) [
      | none ↦ none
      | some (r, m) ↦ some (r, record y { machine = record (y.machine) { memory = m } })
    ])
    else some (neg eperm, y)
