-- ===== src/Vfs/Total.antt =====
-- `ensure_children_loaded` comes back, and shows what the volume has, if each call of the reader comes
-- back.
use linux2win.Base.{
  ℕ, ◌≡◌, refl, sym, subst, inl, inr, Bool, true, false, none, some, List, [], ◌∷◌, Result, ok,
  or_else, attempt, ◌>>=◌, Bool-cases, get_elem?, modify, if◌then◌else◌, Gives, bind-Gives,
  option-Gives,
}
use linux2win.Ext4.Reader.{Ext4Reader}
use linux2win.Ext4.File.{stat_inode}
use linux2win.Ext4.Directory.{DirEntryInfo, list_directory}
use linux2win.Vfs.{
  VfsNode, VfsTree, add_child, add_children, clear_children, mark_loaded, load_children,
  ensure_children_loaded,
}
use linux2win.Vfs.Store.{Grows}
use linux2win.Vfs.Mirror.{Child, AllShow, IsTree, listing}
use linux2win.Vfs.Load.{ensure-step, ensure_children_loaded-IsLoaded}

-- Each call answers true or false.
abbrev pub IsSettled : ℕ → ℕ → Ext4Reader → Type 0
IsSettled fuel depth r =
    ((number : ℕ) → Gives (attempt (stat_inode fuel depth r number)))
    × ((number : ℕ) → Gives (attempt (list_directory fuel depth r number)))

module _ (fuel depth : ℕ) (r : Ext4Reader) (settled : IsSettled fuel depth r) where
  add_children-Gives :
      (entries : List DirEntryInfo) (t : VfsTree) (id : ℕ) (parent : VfsNode)
      → Gives (add_children fuel depth t r id parent entries)
  unfolding add_children
  add_children-Gives [] t id parent = (t, refl)
  add_children-Gives (entry ∷ entries) t id parent =
      bind-Gives (attempt (stat_inode fuel depth r entry.inode))
        (elim [
          | none ↦ add_children fuel depth t r id parent entries
          | some st ↦ add_children fuel depth (add_child t id parent entry st) r id parent entries
        ])
        (settled.0 entry.inode)
        (λ o e.
          option-Gives o (add_children fuel depth t r id parent entries)
            (λ st. add_children fuel depth (add_child t id parent entry st) r id parent entries)
            (add_children-Gives entries t id parent)
            (λ st e'. add_children-Gives entries (add_child t id parent entry st) id parent))

  load_children-Gives :
      (t : VfsTree) (id : ℕ) (p : VfsNode) → Gives (load_children fuel depth t r id p)
  unfolding load_children
  load_children-Gives t id p =
      let clear = record t { nodes = modify clear_children id t.nodes } in
      let loaded : List DirEntryInfo → Result (VfsTree × Bool) = λ entries.
        add_children fuel depth clear r id p entries >>= λ s.
        ok (record s { nodes = modify mark_loaded id s.nodes }, true) in
      bind-Gives (attempt (list_directory fuel depth r p.inode_num))
        (elim [ none ↦ ok (t, false) | some entries ↦ loaded entries ]) (settled.1 p.inode_num)
        (λ o e.
          option-Gives o (ok (t, false)) loaded ((t, false), refl)
            (λ entries e'.
              bind-Gives (add_children fuel depth clear r id p entries)
                (λ s. ok (record s { nodes = modify mark_loaded id s.nodes }, true))
                (add_children-Gives entries clear id p)
                (λ s e''. ((record s { nodes = modify mark_loaded id s.nodes }, true), refl))))

  ensure-Gives :
      (t : VfsTree) (id : ℕ) (p : VfsNode)
      → t.reader ≡ some r
      → get_elem? t.nodes id ≡ some p
      → p.is_directory ≡ true
      → Gives (ensure_children_loaded fuel depth t id)
  ensure-Gives t id p reads here directory =
      subst (λ m. Gives m) (sym (ensure-step fuel depth r t id p reads here directory))
        (elim (Bool-cases p.children_loaded) [
          | inl loaded ↦ ((t, true), rw loaded refl)
          | inr bare ↦
              subst (λ b. Gives (if b then ok (t, true) else load_children fuel depth t r id p))
                (sym bare) (load_children-Gives t id p)
        ])

  -- For a volume on which each call of the reader comes back, and a tree that mirrors it: loading
  -- a directory of the tree, which takes no lock, comes back and follows no pointer that nothing stands
  -- behind. The tree mirrors the volume still, no node of it is lost or gets another inode, name, path
  -- or kind, and the children of the directory are, in order, the entries that the volume lists for its
  -- inode and whose inodes can be read, by name, inode and kind; there are none where it cannot be listed.
  pub ensure_children_loaded-mirrors :
      (t : VfsTree) (id : ℕ) (p : VfsNode)
      → IsTree fuel depth r t
      → get_elem? t.nodes id ≡ some p
      → p.is_directory ≡ true
      → (s : VfsTree) × (b : Bool) × (node : VfsNode) × (kids : List Child)
        × (ensure_children_loaded fuel depth t id ≡ ok (s, b))
        × IsTree fuel depth r s
        × Grows t.nodes s.nodes
        × (get_elem? s.nodes id ≡ some node)
        × (or_else (listing fuel depth r p.inode_num) [] ≡ ok kids)
        × AllShow s.nodes node.children kids
  ensure_children_loaded-mirrors t id p tree here directory =
      let ((s, b), e) = ensure-Gives t id p tree.reads here directory in
      let l = ensure_children_loaded-IsLoaded fuel depth r t s id p b tree here directory e in
      (s, b, l.node, l.kids, e, l.tree, l.grows, l.here, l.listed, l.shown)
