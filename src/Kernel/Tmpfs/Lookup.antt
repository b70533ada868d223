-- ===== src/Kernel/Tmpfs/Lookup.antt =====
-- Looking names up and listing them.
use oldasternix.Prelude.{
  ℕ, zero, suc, ◌+◌, ◌-◌, ◌≤◌, ◌<◌, ◌^◌, ◌≡◌, refl, true, none, some, List, [], ◌∷◌, ◌++◌, map,
  if◌then◌else◌, length, take, min, arith,
}
use oldasternix.Prelude.Int.{pos}
use oldasternix.Prelude.Word.{to_int}
use oldasternix.Kernel.Tmpfs.{
  Dentry, Inode, directory, Store, same_name, find_name, read_names, tmpfs_readdir,
}
use oldasternix.Libc.Strings.Scan.{compare_strings}

pub same_name_refl : (name : List ℕ) → same_name name name ≡ true
unfolding compare_strings
same_name_refl [] = refl
same_name_refl (x ∷ xs) = ground (arith, same_name_refl xs)

-- A new last entry is found under its own name if no earlier entry has that name, and hides none.
pub find_name-append :
    (name : List ℕ) (ds : List Dentry) (d : Dentry)
    → find_name name (ds ++ d ∷ []) ≡ elim (find_name name ds) [
      | some e ↦ some e
      | none ↦ if same_name d.name name then some d else none
    ]
unfolding find_name
find_name-append name [] d = ground arith
find_name-append name (e ∷ ds) d = ground (arith, find_name-append name ds d)

abbrev pub names : List Dentry → List (List ℕ)
names ds = map (λ (d : Dentry). d.name) ds

read_names_lem :
    (n count : ℕ) (ds : List Dentry)
    → count ≤ n
    → (read_names n count ds).0 ≡ count + min (n - count) (length ds)
unfolding read_names
read_names_lem n count [] h = ground arith
read_names_lem n count (d ∷ ds) h = ground (arith, read_names_lem n (count + 1) ds)

read_names-take :
    (n count k : ℕ) (ds : List Dentry)
    → n ≡ count + k
    → (read_names n count ds).1 ≡ take k (names ds)
unfolding read_names
read_names-take n count zero [] e = refl
read_names-take n count (suc k) [] e = refl
read_names-take n count zero (d ∷ ds) e = ground arith
read_names-take n count (suc k) (d ∷ ds) e = ground (arith, read_names-take n (count + 1) k ds)

-- `tmpfs_readdir` of a directory, with `n` below 2^31, lists the names of its first `n` entries in
-- their order and returns how many there are.
pub tmpfs_readdir-take :
    (idir n : ℕ) (s : Store) (i : Inode) (ds : List Dentry)
    → n < 2 ^ 31
    → s idir ≡ some i
    → i.body ≡ directory ds
    → tmpfs_readdir idir n s ≡ some (pos (min n (length ds)), take n (names ds))
unfolding tmpfs_readdir
tmpfs_readdir-take idir n s i ds small e b =
    let count : to_int (read_names n 0 ds).0 ≡ pos (min n (length ds)) =
      ground (arith, read_names_lem n 0 ds) in
    rw (e, b, count, read_names-take n 0 n ds (omega arith))
