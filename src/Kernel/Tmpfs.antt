-- ===== src/Kernel/Tmpfs.antt =====
-- The in-memory file system of kernel/fs/tmpfs.c, over the types of kernel/include/fs.h. Inodes
-- stand at addresses; a directory's list of `struct tmpfs_dentry` is a list of its entries. The
-- address that `malloc` hands out for a new inode is an argument. A result of `none` is a wild or
-- null pointer, or an inode that is used as another kind than it was allocated as.
pub mod Chain
pub mod FileData
pub mod Lookup
pub mod Calls
pub mod Create
pub mod Devices
mod Tests
use Prim.Native.Nat.{bit_and}
use oldasternix.Prelude.{
  ◌>>=◌, ℕ, ◌+◌, Bool, true, false, Option, none, some, List, [], ◌∷◌, ◌++◌, ◌==◌, ltb,
  if◌then◌else◌, length, take, min,
}
use oldasternix.Prelude.Int.{ℤ, pos, neg, eq_ℤ}
use oldasternix.Prelude.Word.{u16, u32, to_int}
use oldasternix.Libc.Strings.Scan.{compare_strings}
use oldasternix.Kernel.Drivers.{Tables, read_char, write_char, read_block, write_block}
use oldasternix.Kernel.Errno.{eexist, eperm, eisdir}
use oldasternix.Kernel.Machine.{Machine}
use oldasternix.Kernel.Tmpfs.Chain.{zero_block, Fresh}
use oldasternix.Kernel.Tmpfs.FileData.{Content, read_content, write_content}

-- `enum i_perms` and `enum i_type`.
abbrev pub i_perms : ℕ
i_perms = 0o777

abbrev pub it_reg : ℕ
it_reg = 0o1000

abbrev pub it_dir : ℕ
it_dir = 0o2000

abbrev pub it_blk : ℕ
it_blk = 0o3000

abbrev pub it_chr : ℕ
it_chr = 0o4000

abbrev pub it_type : ℕ
it_type = 0o7000

pub record Dentry : Type 0 where
  pub name : List ℕ
  pub ino : ℕ

-- What follows the `struct inode` at its address.
pub data Body : Type 0 where
  directory : List Dentry → Body
  regular : Content → Body
  device : Body

-- `struct inode`: `dev_type` shares its storage with `firstblk` and `size`, which only regular
-- files use. `ino` and `dev_on` are never set.
pub record Inode : Type 0 where
  pub nlink : ℕ
  pub mode : ℕ
  pub uid : ℕ
  pub gid : ℕ
  pub fs_on : ℕ
  pub dev_type : ℕ
  pub body : Body

-- The inodes by address.
abbrev pub Store : Type 0
Store = ℕ → Option Inode

abbrev pub put : ℕ → Inode → Store → Store
put p i s = λ q. if q == p then some i else s q

abbrev pub with_inode : {R : Type 0} → Option Inode → (Inode → Option R) → Option R
with_inode none k = none
with_inode (some i) k = k i

abbrev pub entries : Body → Option (List Dentry)
entries (directory ds) = some ds
entries _ = none

abbrev pub with_entries : {R : Type 0} → Option Inode → (List Dentry → Option R) → Option R
with_entries none k = none
with_entries (some i) k = elim (entries i.body) [ none ↦ none | some ds ↦ k ds ]

-- `strcmp(a, b) == 0`.
abbrev pub same_name : List ℕ → List ℕ → Bool
same_name a b = eq_ℤ (compare_strings a b) (pos 0)

-- The loop of `tmpfs_lookup`.
pub find_name : List ℕ → List Dentry → Option Dentry
find_name name [] = none
find_name name (d ∷ ds) = if same_name d.name name then some d else find_name name ds

pub tmpfs_lookup : ℕ → List ℕ → Store → Option (Option Dentry)
tmpfs_lookup idir name s = with_entries (s idir) λ ds. some (find_name name ds)

-- `add_to_dir`: one more link to the inode, and an entry behind the last one.
pub add_to_dir : ℕ → List ℕ → ℕ → Store → Option Store
add_to_dir dir name ino s = with_inode (s ino) λ i.
    let s' = put ino (record i { nlink = u16 (i.nlink + 1) }) s in
    with_inode (s' dir) λ d. elim (entries d.body) [
      | none ↦ none
      | some ds ↦ some (
          put dir (record d { body = directory (ds ++ record { name = name; ino = ino } ∷ []) }) s')
    ]

-- A new inode of the file system that the directory is on.
abbrev pub new_inode : Inode → ℕ → Body → Inode
new_inode d mode body = record {
  nlink = 0;
  mode = mode;
  uid = 0;
  gid = 0;
  fs_on = d.fs_on;
  dev_type = 0;
  body = body;
}

abbrev pub empty_file : Content
empty_file = record { size = 0; chain = record { blocks = zero_block ∷ []; stray = false } }

abbrev pub dot : List ℕ
dot = 46 ∷ []

abbrev pub dot_dot : List ℕ
dot_dot = 46 ∷ 46 ∷ []

abbrev pub and_return : Option Store → Option (ℤ × Store)
and_return none = none
and_return (some s) = some (pos 0, s)

-- The three cases of the `switch` of `tmpfs_create`, at the new inode's address `p`.
pub create_node : ℕ → ℕ → List ℕ → Inode → Store → Option Store
create_node p idir name i s = add_to_dir idir name p (put p i s)

pub create_dir : ℕ → ℕ → List ℕ → Inode → Store → Option Store
create_dir p idir name i s = do
  s ← add_to_dir p dot p (put p i s)
  s ← add_to_dir p dot_dot idir s
  add_to_dir idir name p s

pub tmpfs_create : ℕ → ℕ → List ℕ → ℕ → Store → Option (ℤ × Store)
tmpfs_create p idir name mode s = with_inode (s idir) λ d. elim (tmpfs_lookup idir name s) [
  | none ↦ none
  | some (some _) ↦ some (neg eexist, s)
  | some none ↦
      if bit_and mode it_type == it_reg
      then and_return (create_node p idir name (new_inode d mode (regular empty_file)) s)
      else if bit_and mode it_type == it_dir
      then and_return (create_dir p idir name (new_inode d mode (directory [])) s)
      else if bit_and mode it_type == it_chr
      then and_return (create_node p idir name (new_inode d mode device) s)
      else if bit_and mode it_type == it_blk
      then and_return (create_node p idir name (new_inode d mode device) s)
      else some (neg eperm, s)
]

-- The names of the first `n` entries, which the source stores through `names`, and their number.
pub read_names : ℕ → ℕ → List Dentry → ℕ × List (List ℕ)
read_names n count [] = (count, [])
read_names n count (d ∷ ds) =
    let rest = read_names n (count + 1) ds in
    if ltb count n then (rest.0, d.name ∷ rest.1) else (count, [])

pub tmpfs_readdir : ℕ → ℕ → Store → Option (ℤ × List (List ℕ))
tmpfs_readdir idir n s =
    with_entries (s idir) λ ds. let (count, names) = read_names n 0 ds in some (to_int count, names)

-- The root inode that `tmpfs_mount` sets up for the file system at `fs`.
pub tmpfs_mount : ℕ → ℕ → ℕ → Store → Store
tmpfs_mount root fs flags s =
    put root
      (record {
        nlink = 0;
        mode = bit_and flags i_perms;
        uid = 0;
        gid = 0;
        fs_on = fs;
        dev_type = 0;
        body = directory [];
      })
      s

-- `tmpfs_destroy` frees the root inode alone.
pub tmpfs_destroy : ℕ → Store → Store
tmpfs_destroy root s = λ q. if q == root then none else s q
