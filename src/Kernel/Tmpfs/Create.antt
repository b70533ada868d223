-- ===== src/Kernel/Tmpfs/Create.antt =====
-- What creating a file, a device node or a directory does.
use Prim.Native.Nat.{bit_and}
use oldasternix.Prelude.{
  ℕ, ◌+◌, ◌≡◌, ◌≢◌, ◌⊎◌, refl, ◌∙◌, true, false, inl, inr, Option, none, some, List, [], ◌∷◌, ◌++◌,
  ◌==◌, if◌then◌else◌, arith,
}
use oldasternix.Prelude.Int.{pos, neg}
use oldasternix.Prelude.Word.{u16}
use oldasternix.Kernel.Errno.{eexist, eperm}
use oldasternix.Kernel.Tmpfs.{
  Dentry, Inode, Body, directory, regular, device, Store, put, same_name, find_name, tmpfs_lookup,
  add_to_dir, new_inode, empty_file, dot, dot_dot, create_node, create_dir, tmpfs_create, it_reg,
  it_dir, it_chr, it_blk, it_type,
}
use oldasternix.Kernel.Tmpfs.Lookup.{same_name_refl, find_name-append}

-- At `p` stands a directory with the entries `ds`.
pub record IsDirectory (s : Store) (p : ℕ) (i : Inode) (ds : List Dentry) : Type 0 where
  pub holds : s p ≡ some i
  pub body : i.body ≡ directory ds

abbrev pub entry : List ℕ → ℕ → Dentry
entry name p = record { name = name; ino = p }

add_to_dir_lem :
    (s : Store) (dir : ℕ) (name : List ℕ) (ino : ℕ) (i d : Inode) (ds : List Dentry)
    → s ino ≡ some i
    → put ino (record i { nlink = u16 (i.nlink + 1) }) s dir ≡ some d
    → d.body ≡ directory ds
    → add_to_dir dir name ino s
      ≡ some (
          put dir
            (record d { body = directory (ds ++ entry name ino ∷ []) })
            (put ino (record i { nlink = u16 (i.nlink + 1) }) s))
unfolding add_to_dir
add_to_dir_lem s dir name ino i d ds h h' b = rw (h, h') (rw b)

module _ (s : Store) (p idir : ℕ) (name : List ℕ) (mode : ℕ) (d : Inode) (ds : List Dentry) where
  -- A name that the directory has already: EEXIST, and nothing is changed.
  pub tmpfs_create-exists :
      (e : Dentry)
      → IsDirectory s idir d ds
      → find_name name ds ≡ some e
      → tmpfs_create p idir name mode s ≡ some (neg eexist, s)
  unfolding tmpfs_create tmpfs_lookup
  tmpfs_create-exists e dir found = rw (dir.holds, dir.body, found)

  -- A new name for what is neither a file, a directory nor a device: EPERM, and nothing is changed.
  pub tmpfs_create-kind :
      IsDirectory s idir d ds
      → find_name name ds ≡ none
      → bit_and mode it_type ≢ it_reg
      → bit_and mode it_type ≢ it_dir
      → bit_and mode it_type ≢ it_chr
      → bit_and mode it_type ≢ it_blk
      → tmpfs_create p idir name mode s ≡ some (neg eperm, s)
  unfolding tmpfs_create tmpfs_lookup
  tmpfs_create-kind dir new reg dir' chr blk = rw (dir.holds, dir.body, new) (ground arith)

  -- What the body of a new file or device node is.
  abbrev pub node_body : Body
  node_body = if bit_and mode it_type == it_reg then regular empty_file else device

  -- The stores that creating a node passes through.
  abbrev linked : Body → Store
  linked b = put p (record (new_inode d mode b) { nlink = 1 }) (put p (new_inode d mode b) s)

  create_node-run :
      (b : Body)
      → IsDirectory s idir d ds
      → p ≢ idir
      → create_node p idir name (new_inode d mode b) s
        ≡ some (put idir (record d { body = directory (ds ++ entry name p ∷ []) }) (linked b))
  unfolding create_node add_to_dir
  create_node-run b dir fresh =
      let self : (p == p) ≡ true = ground arith in
      let apart : (idir == p) ≡ false = ground arith in rw (self, apart, dir.holds, dir.body)

  -- Creating a regular file or a device node under a new name, at an address other than the
  -- directory's, returns 0. The new inode has one link, the mode asked for, and an empty file's
  -- body or a device's; the directory has one more entry, at its end. Every other inode is as
  -- before.
  pub tmpfs_create-node :
      IsDirectory s idir d ds
      → find_name name ds ≡ none
      → p ≢ idir
      → (bit_and mode it_type ≡ it_reg)
        ⊎ (bit_and mode it_type ≡ it_chr)
        ⊎ (bit_and mode it_type ≡ it_blk)
      → (s' : Store) × (tmpfs_create p idir name mode s ≡ some (pos 0, s'))
        × (s' p ≡ some (record (new_inode d mode node_body) { nlink = 1 }))
        × (s' idir ≡ some (record d { body = directory (ds ++ entry name p ∷ []) }))
        × ((q : ℕ) → q ≢ p → q ≢ idir → s' q ≡ s q)
  unfolding tmpfs_create tmpfs_lookup
  tmpfs_create-node dir new fresh kind = (
    put idir (record d { body = directory (ds ++ entry name p ∷ []) }) (linked node_body),
    rw (dir.holds, dir.body, new)
        (ground (
          arith,
          create_node-run (regular empty_file) dir fresh,
          create_node-run device dir fresh,
        )),
    ground arith,
    ground arith,
    λ q a b. ground arith,
  )

  -- The entries of a new directory.
  abbrev pub new_entries : List Dentry
  new_entries = entry dot p ∷ entry dot_dot idir ∷ []

  -- What creating a directory leaves: its inode, its parent's, and all others.
  pub record IsMade (s' : Store) : Type 0 where
    pub made : s' p ≡ some (record (new_inode d mode (directory new_entries)) { nlink = 2 })
    pub parent :
        s' idir
        ≡ some (record d { nlink = u16 (d.nlink + 1); body = directory (ds ++ entry name p ∷ []) })
    pub others : (q : ℕ) → q ≢ p → q ≢ idir → s' q ≡ s q

  create_dir-run :
      IsDirectory s idir d ds
      → p ≢ idir
      → (s' : Store) × (create_dir p idir name (new_inode d mode (directory [])) s ≡ some s')
        × IsMade s'
  unfolding create_dir
  create_dir-run dir fresh =
      let made = new_inode d mode (directory []) in
      let made1 = record made { nlink = 1; body = directory (entry dot p ∷ []) } in
      let made2 = record made { nlink = 1; body = directory new_entries } in
      let d1 = record d { nlink = u16 (d.nlink + 1) } in
      let s1 = put p made s in
      let s2 = put p made1 (put p (record made { nlink = 1 }) s1) in
      let s3 = put p made2 (put idir d1 s2) in
      let s4 =
        put idir (record d1 { body = directory (ds ++ entry name p ∷ []) })
          (put p (record made2 { nlink = 2 }) s3) in
      let e1 : add_to_dir p dot p s1 ≡ some s2 =
        add_to_dir_lem s1 p dot p made (record made { nlink = 1 }) [] (ground arith) (ground arith)
          refl in
      let e2 : add_to_dir p dot_dot idir s2 ≡ some s3 =
        add_to_dir_lem s2 p dot_dot idir d made1 (entry dot p ∷ []) (ground (arith, dir.holds))
          (ground arith) refl in
      let e3 : add_to_dir idir name p s3 ≡ some s4 =
        add_to_dir_lem s3 idir name p made2 d1 ds (ground arith) (ground arith) dir.body in
      (
        s4,
        rw (e1, e2, e3),
        record { made = ground arith; parent = ground arith; others = λ q a b. ground arith },
      )

  -- Creating a directory under a new name, at an address other than its parent's, returns 0. The
  -- new directory has the entries "." and "..", and two links, from its own "." and from the
  -- parent; the parent has one more entry, at its end, and one more link. Every other inode is as
  -- before.
  pub tmpfs_create-directory :
      IsDirectory s idir d ds
      → find_name name ds ≡ none
      → p ≢ idir
      → bit_and mode it_type ≡ it_dir
      → (s' : Store) × (tmpfs_create p idir name mode s ≡ some (pos 0, s')) × IsMade s'
  unfolding tmpfs_create tmpfs_lookup
  tmpfs_create-directory dir new fresh kind =
      let (s', run, made) = create_dir-run dir fresh in (s', ground (arith, run), made)

  -- What a lookup finds in the old entries with the new one behind them.
  abbrev pub after_create : List ℕ → Option Dentry
  after_create other = elim (find_name other ds) [
    | some e ↦ some e
    | none ↦ if same_name name other then some (entry name p) else none
  ]

  lookup-parent :
      (s' : Store) (other : List ℕ) (i : Inode)
      → s' idir ≡ some i
      → i.body ≡ directory (ds ++ entry name p ∷ [])
      → tmpfs_lookup idir other s' ≡ some (after_create other)
  unfolding tmpfs_lookup
  lookup-parent s' other i holds body = ground (arith, find_name-append other ds (entry name p))

  -- Creating a file, device node or directory in a directory that has no such name, at an address
  -- other than the directory's, returns 0; after it the new inode is found under that name, and
  -- every other name is found, or not found, as before.
  pub tmpfs_lookup-create :
      IsDirectory s idir d ds
      → find_name name ds ≡ none
      → p ≢ idir
      → (bit_and mode it_type ≡ it_reg)
        ⊎ (bit_and mode it_type ≡ it_chr)
        ⊎ (bit_and mode it_type ≡ it_blk)
        ⊎ (bit_and mode it_type ≡ it_dir)
      → (s' : Store) × (tmpfs_create p idir name mode s ≡ some (pos 0, s'))
        × (tmpfs_lookup idir name s' ≡ some (some (entry name p)))
        × ((other : List ℕ) → tmpfs_lookup idir other s' ≡ some (after_create other))
  tmpfs_lookup-create dir new fresh kind = elim kind [
    | inl reg ↦ node (inl reg)
    | inr (inl chr) ↦ node (inr (inl chr))
    | inr (inr (inl blk)) ↦ node (inr (inr blk))
    | inr (inr (inr dir')) ↦
        let (s', run, made) = tmpfs_create-directory dir new fresh dir' in
        let found = λ (other : List ℕ). lookup-parent s' other _ made.parent refl in
        (s', run, found name ∙ self, found)
  ]
    where
      self :
          ◌≡◌ {A = Option (Option Dentry)} (some (after_create name)) (some (some (entry name p)))
      self = ground (arith, same_name_refl name)

      node :
          (bit_and mode it_type ≡ it_reg)
            ⊎ (bit_and mode it_type ≡ it_chr)
            ⊎ (bit_and mode it_type ≡ it_blk)
          → (s' : Store) × (tmpfs_create p idir name mode s ≡ some (pos 0, s'))
            × (tmpfs_lookup idir name s' ≡ some (some (entry name p)))
            × ((other : List ℕ) → tmpfs_lookup idir other s' ≡ some (after_create other))
      node k =
          let (s', run, _, parent, _) = tmpfs_create-node dir new fresh k in
          let found = λ (other : List ℕ). lookup-parent s' other _ parent refl in
          (s', run, found name ∙ self, found)
