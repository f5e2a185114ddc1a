-- ===== src/Vfs/Cache.antt =====
-- The cache of nodes by path: a child that is added is found under each spelling of its path.
use linux2win.Base.{
  ℕ, ◌≡◌, ◌≢◌, refl, sym, ap, ◌∙◌, some, List, [], ◌∷◌, ◌++◌, Bytes, length, get_elem?, same,
  same→eq, same_refl, modify, subst, Bool-cases, inl, inr,
}
use linux2win.Ext4.File.{FileStat}
use linux2win.Ext4.Directory.{DirEntryInfo}
use linux2win.Ext4.Path.{split_path}
use linux2win.Ext4.Path.Parts.{IsPart, split_path-cut, split_path-part}
use linux2win.Vfs.Names.{normalize_path, cut_path, backslash}
use linux2win.Vfs.Paths.{normalize_path-joined, joined}
use linux2win.Vfs.Store.{length-modify, get_elem?-last}
use linux2win.Vfs.Cuts.{cut_path-normalize}
use linux2win.Vfs.{VfsNode, VfsTree, cached, child_path, child_node, push_child, add_child}

-- The path of a child has the parts of its directory's path, and its name.
split_path-child_path :
    (parent name : Bytes)
    → IsPart name
    → split_path (child_path parent name) ≡ split_path parent ++ (name ∷ [])
unfolding split_path
split_path-child_path [] name part = split_path-part name part
split_path-child_path (c ∷ cs) name part =
    split_path-cut backslash (c ∷ cs) name refl
    ∙ ap (λ l. split_path (c ∷ cs) ++ l) (split_path-part name part)

cached-first :
    (key : Bytes) (id : ℕ) (rest : List (Bytes × ℕ)) → cached key ((key, id) ∷ rest) ≡ some id
unfolding cached
cached-first key id rest = rw (same_refl key) refl

cached-later :
    (key first : Bytes) (id : ℕ) (rest : List (Bytes × ℕ))
    → first ≢ key
    → cached key ((first, id) ∷ rest) ≡ cached key rest
unfolding cached
cached-later key first id rest apart = elim (Bool-cases (same first key)) [
  | inl hit ↦ absurd (apart (same→eq first key hit))
  | inr miss ↦ rw miss refl
]

add_child-node :
    (t : VfsTree) (id : ℕ) (parent : VfsNode) (entry : DirEntryInfo) (st : FileStat)
    → get_elem? (add_child t id parent entry st).nodes (length t.nodes)
      ≡ some (child_node parent entry st)
unfolding add_child
add_child-node t id parent entry st =
    let f = push_child (length t.nodes) in
    let child = child_node parent entry st in
    subst (λ k. get_elem? (modify f id t.nodes ++ (child ∷ [])) k ≡ some child)
      (length-modify f id t.nodes) (get_elem?-last (modify f id t.nodes) child)

-- Once a child is added to a directory of the tree, whose name is not empty and has no slash of either
-- kind: the cache gives, for each path with the parts of the directory's path and then the child's
-- name, whatever its slashes, the new node, which has the entry's inode and a path with these parts;
-- and for a path with other parts it gives what it gave before.
pub add_child-cached :
    (t : VfsTree) (id : ℕ) (parent : VfsNode) (entry : DirEntryInfo) (st : FileStat)
    (path other : Bytes)
    → IsPart entry.name
    → split_path path ≡ split_path parent.relative_path ++ (entry.name ∷ [])
    → split_path other ≢ split_path path
    → (node : VfsNode) × (cached (normalize_path path) (add_child t id parent entry st).node_cache
        ≡ some (length t.nodes))
      × (get_elem? (add_child t id parent entry st).nodes (length t.nodes) ≡ some node)
      × (node.inode_num ≡ entry.inode)
      × (split_path node.relative_path ≡ split_path parent.relative_path ++ (entry.name ∷ []))
      × (cached (normalize_path other) (add_child t id parent entry st).node_cache
          ≡ cached (normalize_path other) t.node_cache)
unfolding add_child
add_child-cached t id parent entry st path other part spelled apart =
    let child = child_node parent entry st in
    let parts : split_path child.relative_path
        ≡ split_path parent.relative_path ++ (entry.name ∷ []) =
      split_path-child_path parent.relative_path entry.name part in
    let key : normalize_path child.relative_path ≡ normalize_path path =
      normalize_path-joined child.relative_path
      ∙ ap joined (parts ∙ sym spelled)
      ∙ sym (normalize_path-joined path) in
    (
      child,
      ap (λ k. cached (normalize_path path) ((k, length t.nodes) ∷ t.node_cache)) key
          ∙ cached-first (normalize_path path) (length t.nodes) t.node_cache,
      add_child-node t id parent entry st,
      refl,
      parts,
      cached-later (normalize_path other) (normalize_path child.relative_path) (length t.nodes)
          t.node_cache
          (λ e.
            apart (
              sym (cut_path-normalize other)
              ∙ ap cut_path (sym e ∙ key)
              ∙ cut_path-normalize path)),
    )
