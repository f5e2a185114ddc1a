-- ===== src/Vfs/Mirror.antt =====
-- What the volume holds, as the tree shows it, and what it means that the nodes mirror it.
use linux2win.Base.{
  ℕ, ◌≡◌, sym, ap, ◌∙◌, Bool, true, false, not, Option, none, some, List, [], ◌∷◌, ◌++◌, Bytes, All,
  Result, ok, attempt, or_else, ◌>>=◌, get_elem?, if◌then◌else◌,
}
use linux2win.Ext4.Reader.{Ext4Reader}
use linux2win.Ext4.File.{FileStat, stat_inode}
use linux2win.Ext4.Directory.{DirEntryInfo, list_directory}
use linux2win.Vfs.Names.{normalize_path, same_name}
use linux2win.Vfs.{VfsNode, VfsTree}
use linux2win.Vfs.Store.{Grows}

abbrev pub Child : Type 0
Child = DirEntryInfo × FileStat

-- The node with an index shows a child of the volume.
abbrev pub Shows : List VfsNode → ℕ → Child → Type 0
Shows nodes id (entry, st) =
    (node : VfsNode) × (get_elem? nodes id ≡ some node)
    × (node.name ≡ entry.name)
    × (node.inode_num ≡ entry.inode)
    × (node.is_directory ≡ st.is_directory)

abbrev pub AllShow : List VfsNode → List ℕ → List Child → Type 0
AllShow nodes [] [] = Unit {0}
AllShow nodes [] (k ∷ ks) = ⊥
AllShow nodes (i ∷ is) [] = ⊥
AllShow nodes (i ∷ is) (k ∷ ks) = Shows nodes i k × AllShow nodes is ks

Shows-grow :
    (xs ys : List VfsNode) (id : ℕ) (k : Child) → Grows xs ys → Shows xs id k → Shows ys id k
Shows-grow xs ys id (entry, st) grows (node, e, name, inode, directory) =
    let (later, e', core) = grows id node e in
    (later, e', sym core.name ∙ name, sym core.inode ∙ inode, sym core.directory ∙ directory)

pub AllShow-grow :
    (xs ys : List VfsNode) (ids : List ℕ) (ks : List Child)
    → Grows xs ys
    → AllShow xs ids ks
    → AllShow ys ids ks
AllShow-grow xs ys [] [] grows all = tt
AllShow-grow xs ys [] (k ∷ ks) grows all = all
AllShow-grow xs ys (i ∷ is) [] grows all = all
AllShow-grow xs ys (i ∷ is) (k ∷ ks) grows (show, all) =
    (Shows-grow xs ys i k grows show, AllShow-grow xs ys is ks grows all)

pub AllShow-snoc :
    (nodes : List VfsNode) (ids : List ℕ) (ks : List Child) (i : ℕ) (k : Child)
    → AllShow nodes ids ks
    → Shows nodes i k
    → AllShow nodes (ids ++ (i ∷ [])) (ks ++ (k ∷ []))
AllShow-snoc nodes [] [] i k all show = (show, tt)
AllShow-snoc nodes [] (l ∷ ks) i k all show = absurd all
AllShow-snoc nodes (j ∷ js) [] i k all show = absurd all
AllShow-snoc nodes (j ∷ js) (l ∷ ks) i k (first, all) show =
    (first, AllShow-snoc nodes js ks i k all show)

-- The first child of a name, without regard to case.
unfoldable pub choose : Bytes → List Child → Option Child
choose part [] = none
choose part (k ∷ ks) = let rest = choose part ks in if same_name k.0.name part then some k else rest

module _ (fuel depth : ℕ) (r : Ext4Reader) where
  -- The entries whose inodes can be read.
  unfoldable pub visible : List DirEntryInfo → Result (List Child)
  visible [] = ok []
  visible (entry ∷ entries) = attempt (stat_inode fuel depth r entry.inode) >>= elim [
    | none ↦ visible entries
    | some st ↦ visible entries >>= λ rest. ok ((entry, st) ∷ rest)
  ]

  unfoldable pub listing : ℕ → Result (List Child)
  listing number = list_directory fuel depth r number >>= visible

  -- The inode at the end of a path, by listing each directory on the way anew.
  unfoldable pub resolve : ℕ → Bool → List Bytes → Result (Option ℕ)
  resolve number is_directory [] = ok (some number)
  resolve number is_directory (part ∷ parts) =
      if not is_directory
      then ok none
      else or_else (listing number) [] >>= λ kids. elim (choose part kids) [
        | none ↦ ok none
        | some (entry, st) ↦ resolve entry.inode st.is_directory parts
      ]

  -- A loaded node has the children that the volume has; another one has none.
  abbrev pub Mirrors : List VfsNode → VfsNode → Type 0
  Mirrors nodes node =
      (node.children_loaded ≡ true
        → (kids : List Child) × (listing node.inode_num ≡ ok kids)
          × AllShow nodes node.children kids)
      × (node.children_loaded ≡ false → node.children ≡ [])

  pub Mirrors-grow :
      (xs ys : List VfsNode) (node : VfsNode) → Grows xs ys → Mirrors xs node → Mirrors ys node
  Mirrors-grow xs ys node grows (loaded, bare) = (
    λ e.
        let (kids, listed, all) = loaded e in
        (kids, listed, AllShow-grow xs ys node.children kids grows all),
    bare,
  )

  abbrev pub IsMirror : List VfsNode → Type 0
  IsMirror nodes = (i : ℕ) (node : VfsNode) → get_elem? nodes i ≡ some node → Mirrors nodes node

  -- The keys of the cache are the normalized paths of their nodes.
  abbrev pub IsCached : List VfsNode → Bytes × ℕ → Type 0
  IsCached nodes (key, id) =
      (node : VfsNode) × (get_elem? nodes id ≡ some node)
      × (normalize_path node.relative_path ≡ key)

  pub IsCached-grow :
      (xs ys : List VfsNode) (cache : List (Bytes × ℕ))
      → Grows xs ys
      → All (IsCached xs) cache
      → All (IsCached ys) cache
  IsCached-grow xs ys [] grows all = tt
  IsCached-grow xs ys ((key, id) ∷ rest) grows ((node, e, path), all) =
      let (later, e', core) = grows id node e in
      ((later, e', ap normalize_path (sym core.path) ∙ path), IsCached-grow xs ys rest grows all)

  abbrev pub IsRoot : List VfsNode → Option ℕ → Type 0
  IsRoot nodes none = Unit {0}
  IsRoot nodes (some id) =
      (node : VfsNode) × (get_elem? nodes id ≡ some node)
      × (node.inode_num ≡ 2)
      × (node.is_directory ≡ true)

  pub IsRoot-grow :
      (xs ys : List VfsNode) (root : Option ℕ) → Grows xs ys → IsRoot xs root → IsRoot ys root
  IsRoot-grow xs ys none grows h = tt
  IsRoot-grow xs ys (some id) grows (node, e, inode, directory) =
      let (later, e', core) = grows id node e in
      (later, e', sym core.inode ∙ inode, sym core.directory ∙ directory)

  pub record IsTree (t : VfsTree) : Type 0 where
    pub reads : t.reader ≡ some r
    pub mirror : IsMirror t.nodes
    pub cache : All (IsCached t.nodes) t.node_cache
    pub root : IsRoot t.nodes t.root
