-- ===== src/Kernel/Tmpfs/Tests.antt =====
-- The theorems on the file system at concrete inodes.
use oldasternix.Prelude.{
  ℕ, ◌≡◌, ◌≢◌, refl, inl, inr, false, none, some, List, [], ◌∷◌, ◌++◌, ◌==◌, if◌then◌else◌, arith,
}
use oldasternix.Prelude.Int.{pos, ◌-ℤ◌}
use oldasternix.Libc.Memory.{Memory, bytes}
use oldasternix.Libc.Strings.Scan.{compare_strings}
use oldasternix.Kernel.Console.{vconsole_write}
use oldasternix.Kernel.Device.{dev}
use oldasternix.Kernel.Drivers.{Tables, empty}
use oldasternix.Kernel.Initcalls.{Initcall, memdev, tty, ramdisk, initcall_tables}
use oldasternix.Kernel.Keyboard.{vconsole_read}
use oldasternix.Kernel.Machine.{Machine, at_boot}
use oldasternix.Kernel.Ports.{Hardware}
use oldasternix.Kernel.Tmpfs.Calls.{System, from_driver, tmpfs_read, tmpfs_write}
use oldasternix.Kernel.Tmpfs.{
  Dentry, Inode, Body, directory, regular, device, Store, find_name, tmpfs_create, tmpfs_lookup,
  new_inode, empty_file,
}
use oldasternix.Kernel.Tmpfs.Chain.{Fresh, zero_block}
use oldasternix.Kernel.Tmpfs.Create.{
  IsDirectory, IsMade, entry, after_create, tmpfs_create-node, tmpfs_create-directory,
  tmpfs_lookup-create,
}
use oldasternix.Kernel.Tmpfs.Devices.{tmpfs_console}
use oldasternix.Kernel.Tmpfs.FileData.{Content, read_content, write_content}
use oldasternix.Kernel.Tmpfs.FileData.Load.{IsLoaded}
use oldasternix.Kernel.Tmpfs.FileData.RoundTrip.{read_content-IsLoaded, read_content-write_content}
use oldasternix.Kernel.Tmpfs.FileData.Store.{IsFile, IsWritten, write_content-IsWritten}

abbrev counting : Memory
counting a = a

abbrev fresh : Fresh
fresh = record { bytes = λ x. 7; stray = false }

-- A file of 10 bytes in one block.
abbrev small_file : Content
small_file = record { size = 10; chain = record { blocks = zero_block ∷ []; stray = false } }

small_file-IsFile : IsFile small_file
small_file-IsFile = record { tidy = refl; first = omega arith; room = omega arith }

-- The write goes past the end of the only block.
write_content-IsWritten_example :
    (f' : Content) × (write_content fresh counting 5 500 5000 small_file ≡ some (pos 5000, f'))
    × IsWritten counting 500 5 5000 small_file f'
write_content-IsWritten_example =
    write_content-IsWritten fresh counting 5 500 5000 small_file refl small_file-IsFile
      (omega arith) (omega arith) (omega arith)

read_content-IsLoaded_example :
    (m' : Memory) × (read_content counting 4 500 9 small_file ≡ some (pos 6, m'))
    × IsLoaded small_file.chain 500 4 10 counting m'
read_content-IsLoaded_example =
    read_content-IsLoaded counting 4 500 9 small_file small_file-IsFile (omega arith) (omega arith)
      (omega arith) (omega arith)

read_content-write_content_example :
    (f' : Content) × (k' : Memory) × (write_content fresh counting 5 500 5000 small_file
      ≡ some (pos 5000, f'))
    × (read_content counting 5 9000 5000 f' ≡ some (pos 5000, k'))
    × (bytes k' 9000 5000 ≡ bytes counting 500 5000)
read_content-write_content_example =
    read_content-write_content fresh counting counting 5 500 9000 5000 small_file refl
      small_file-IsFile (omega arith) (omega arith) (omega arith) (omega arith)

-- A directory at 100 with one entry, "a", for the inode at 200.
abbrev inode : ℕ → ℕ → Body → Inode
inode mode dev_type body = record {
  nlink = 1;
  mode = mode;
  uid = 0;
  gid = 0;
  fs_on = 50;
  dev_type = dev_type;
  body = body;
}

abbrev a_name : List ℕ
a_name = 97 ∷ []

abbrev b_name : List ℕ
b_name = 98 ∷ []

abbrev dentries : List Dentry
dentries = entry a_name 200 ∷ []

abbrev parent : Inode
parent = inode 0o2777 0 (directory dentries)

abbrev console : Inode
console = inode 0o4666 (dev 2 0) device

abbrev disk : Inode
disk = inode 0o3666 (dev 2 0) device

abbrev store : Store
store p =
    if p == 100
    then some parent
    else if p == 200
    then some console
    else if p == 300
    then some disk
    else none

store-IsDirectory : IsDirectory store 100 parent dentries
store-IsDirectory = record { holds = refl; body = refl }

a_name-found : find_name a_name dentries ≡ some (entry a_name 200)
unfolding find_name compare_strings
a_name-found = refl

b_name-new : find_name b_name dentries ≡ none
unfolding find_name compare_strings ◌-ℤ◌
b_name-new = refl

tmpfs_create-node_example :
    (s' : Store) × (tmpfs_create 400 100 b_name 0o1644 store ≡ some (pos 0, s'))
    × (s' 400 ≡ some (record (new_inode parent 0o1644 (regular empty_file)) { nlink = 1 }))
    × (s' 100 ≡ some (record parent { body = directory (dentries ++ entry b_name 400 ∷ []) }))
    × ((q : ℕ) → q ≢ 400 → q ≢ 100 → s' q ≡ store q)
tmpfs_create-node_example =
    tmpfs_create-node store 400 100 b_name 0o1644 parent dentries store-IsDirectory b_name-new
      (omega arith) (inl refl)

tmpfs_create-directory_example :
    (s' : Store) × (tmpfs_create 400 100 b_name 0o2755 store ≡ some (pos 0, s'))
    × IsMade store 400 100 b_name 0o2755 parent dentries s'
tmpfs_create-directory_example =
    tmpfs_create-directory store 400 100 b_name 0o2755 parent dentries store-IsDirectory b_name-new
      (omega arith) refl

tmpfs_lookup-create_example :
    (s' : Store) × (tmpfs_create 400 100 b_name 0o2755 store ≡ some (pos 0, s'))
    × (tmpfs_lookup 100 b_name s' ≡ some (some (entry b_name 400)))
    × ((other : List ℕ)
        → tmpfs_lookup 100 other s'
          ≡ some (after_create store 400 100 b_name 0o2755 parent dentries other))
tmpfs_lookup-create_example =
    tmpfs_lookup-create store 400 100 b_name 0o2755 parent dentries store-IsDirectory b_name-new
      (omega arith) (inr (inr (inr refl)))

abbrev sevens : Hardware
sevens bus port = 7

abbrev order : List Initcall
order = ramdisk ∷ tty ∷ memdev ∷ []

abbrev tables : Tables Machine
tables = initcall_tables sevens order (empty Machine)

abbrev system : System
system = record { store = store; machine = at_boot counting 10_000 20_000 }

tmpfs_console_example :
    (tmpfs_write tables fresh 200 0 500 4 system
      ≡ from_driver store (vconsole_write 500 4 system.machine))
    × (tmpfs_read tables 200 0 500 4 system
        ≡ from_driver store (vconsole_read 500 4 system.machine))
tmpfs_console_example =
    tmpfs_console sevens order fresh 200 0 500 4 system console refl refl refl refl
