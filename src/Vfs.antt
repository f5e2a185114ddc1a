-- ===== src/Vfs.antt =====
-- src/vfs/vfs_tree.cpp: the tree of nodes that ProjFS serves from. The nodes are a store, a shared
-- pointer is an index into it; no node is ever dropped while the tree lives. `fuel` and `depth` are
-- those of the reader.
pub mod Names
pub mod Paths
pub mod Cuts
pub mod Store
pub mod Mirror
pub mod Loading
pub mod Load
pub mod Lookup
pub mod Root
pub mod Find
pub mod Total
pub mod Cache
pub mod Runs
use linux2win.Base.{
  ℕ, ◌+◌, Bool, true, false, not, ◌&&◌, Option, none, some, List, [], ◌∷◌, ◌++◌, Bytes, Result, ok,
  fault, attempt, ◌>>=◌, ◌>>◌, length, modify, get_elem?, same, demand, if◌then◌else◌, bit_or, map,
  ◌%◌,
}
use linux2win.Ext4.Reader.{Ext4Reader}
use linux2win.Ext4.File.{FileStat, stat_inode}
use linux2win.Ext4.Directory.{DirEntryInfo, list_directory}
use linux2win.Ext4.Path.{root_inode}
use linux2win.Vfs.Names.{
  FileTime, unix_epoch_to_filetime, backslash, normalize_path, cut_path, same_name,
}

abbrev pub file_attribute_readonly : ℕ
file_attribute_readonly = 0x01

abbrev pub file_attribute_directory : ℕ
file_attribute_directory = 0x10

abbrev pub file_attribute_normal : ℕ
file_attribute_normal = 0x80

pub record VfsNode : Type 0 where
  pub name : Bytes
  pub relative_path : Bytes
  pub inode_num : ℕ
  pub file_size : ℕ
  pub file_attributes : ℕ
  pub creation_time : FileTime
  pub last_access_time : FileTime
  pub last_write_time : FileTime
  pub is_directory : Bool
  pub is_symlink : Bool
  pub children_loaded : Bool
  pub children : List ℕ

-- `held` says whether this thread holds `tree_mutex_`.
pub record VfsTree : Type 0 where
  pub reader : Option Ext4Reader
  pub nodes : List VfsNode
  pub root : Option ℕ
  pub node_cache : List (Bytes × ℕ)
  pub held : Bool

abbrev pub new_tree : Option Ext4Reader → VfsTree
new_tree reader = record { reader = reader; nodes = []; root = none; node_cache = []; held = false }

unfoldable pub cached : Bytes → List (Bytes × ℕ) → Option ℕ
cached key [] = none
cached key ((k, node) ∷ rest) =
    let later = cached key rest in if same k key then some node else later

-- A pointer that no node stands behind is undefined behaviour.
unfoldable pub node_at : VfsTree → ℕ → Result VfsNode
node_at t id = elim (get_elem? t.nodes id) [ none ↦ fault | some node ↦ ok node ]

abbrev pub root_node : FileStat → VfsNode
root_node st = record {
  name = [];
  relative_path = [];
  inode_num = root_inode;
  file_size = st.size;
  file_attributes = bit_or file_attribute_directory file_attribute_readonly;
  creation_time = unix_epoch_to_filetime st.crtime;
  last_access_time = unix_epoch_to_filetime st.atime;
  last_write_time = unix_epoch_to_filetime st.mtime;
  is_directory = true;
  is_symlink = false;
  children_loaded = false;
  children = [];
}

abbrev pub child_path : Bytes → Bytes → Bytes
child_path [] name = name
child_path (c ∷ cs) name = (c ∷ cs) ++ (backslash ∷ name)

abbrev pub child_node : VfsNode → DirEntryInfo → FileStat → VfsNode
child_node parent entry st = record {
  name = entry.name;
  relative_path = child_path parent.relative_path entry.name;
  inode_num = entry.inode;
  file_size = st.size;
  file_attributes =
      bit_or file_attribute_readonly
        (if st.is_directory then file_attribute_directory else file_attribute_normal);
  creation_time = unix_epoch_to_filetime st.crtime;
  last_access_time = unix_epoch_to_filetime st.atime;
  last_write_time = unix_epoch_to_filetime st.mtime;
  is_directory = st.is_directory;
  is_symlink = st.is_symlink;
  children_loaded = false;
  children = [];
}

abbrev pub push_child : ℕ → VfsNode → VfsNode
push_child child node = record node { children = node.children ++ (child ∷ []) }

-- The new node, its place among the parent's children and in the cache.
unfoldable pub add_child : VfsTree → ℕ → VfsNode → DirEntryInfo → FileStat → VfsTree
add_child t id parent entry st =
    let child = child_node parent entry st in
    let new = length t.nodes in
    record t {
      nodes = modify (push_child new) id t.nodes ++ (child ∷ []);
      node_cache = (normalize_path child.relative_path, new) ∷ t.node_cache;
    }

abbrev pub clear_children : VfsNode → VfsNode
clear_children node = record node { children = [] }

abbrev pub mark_loaded : VfsNode → VfsNode
mark_loaded node = record node { children_loaded = true }

abbrev pub with_root : VfsTree → Option FileStat → VfsTree × Option ℕ
with_root t none = (t, none)
with_root t (some st) =
    let new = length t.nodes in
    (
      record t {
        nodes = t.nodes ++ (root_node st ∷ []);
        root = some new;
        node_cache = ([], new) ∷ t.node_cache;
      },
      some new,
    )

-- The first child of the name.
unfoldable pub find_child : VfsTree → Bytes → List ℕ → Result (Option ℕ)
find_child t part [] = ok none
find_child t part (id ∷ ids) =
    let rest = find_child t part ids in
    do child ← node_at t id; if same_name child.name part then ok (some id) else rest

module _ (fuel depth : ℕ) where
  abbrev pub load_root : VfsTree → Option Ext4Reader → Result (VfsTree × Option ℕ)
  load_root t none = ok (t, none)
  load_root t (some r) =
      if r.mounted
      then (do st ← attempt (stat_inode fuel depth r root_inode); ok (with_root t st))
      else ok (t, none)

  unfoldable pub root_body : VfsTree → Result (VfsTree × Option ℕ)
  root_body t = elim t.root [ some id ↦ ok (t, some id) | none ↦ load_root t t.reader ]

  -- The loop over the entries of a directory: one whose inode cannot be read is left out.
  unfoldable pub add_children :
      VfsTree → Ext4Reader → ℕ → VfsNode → List DirEntryInfo → Result VfsTree
  add_children t r id parent [] = ok t
  add_children t r id parent (entry ∷ entries) =
      attempt (stat_inode fuel depth r entry.inode) >>= elim [
        | none ↦ add_children t r id parent entries
        | some st ↦ add_children (add_child t id parent entry st) r id parent entries
      ]

  unfoldable pub load_children : VfsTree → Ext4Reader → ℕ → VfsNode → Result (VfsTree × Bool)
  unfolding add_children
  load_children t r id parent = attempt (list_directory fuel depth r parent.inode_num) >>= elim [
    | none ↦ ok (t, false)
    | some entries ↦ (do
      s ← add_children (record t { nodes = modify clear_children id t.nodes }) r id parent entries
      ok (record s { nodes = modify mark_loaded id s.nodes }, true))
  ]

  -- For a parent that is not null.
  unfoldable pub ensure_children_loaded : VfsTree → ℕ → Result (VfsTree × Bool)
  unfolding load_children
  ensure_children_loaded t id = do
    parent ← node_at t id
    if not parent.is_directory then ok (t, false) else elim t.reader [
      | none ↦ ok (t, false)
      | some r ↦ if parent.children_loaded then ok (t, true) else load_children t r id parent
    ]

  -- The loop over the parts of the path. Whether a directory could be loaded is not looked at.
  unfoldable pub descend : VfsTree → ℕ → List Bytes → Result (VfsTree × Option ℕ)
  descend t current [] = ok (t, some current)
  descend t current (part ∷ parts) = node_at t current >>= λ node.
      if not node.is_directory
      then ok (t, none)
      else ensure_children_loaded t current >>= λ loaded. node_at loaded.0 current >>= λ parent.
          find_child loaded.0 part parent.children
          >>= elim [ none ↦ ok (loaded.0, none) | some id ↦ descend loaded.0 id parts ]

  abbrev pub from_root : List Bytes → VfsTree × Option ℕ → Result (VfsTree × Option ℕ)
  from_root parts (t, none) = ok (t, none)
  from_root parts (t, some root) = descend t root parts

-- `relock` is what `lock` does to a mutex that the thread holds already: undefined in the standard.
module _ (relock : Result (Unit {0})) where
  -- A `lock_guard` around a body.
  unfoldable pub guarded {ℓ} :
      {A : Type ℓ} → (VfsTree → Result (VfsTree × A)) → VfsTree → Result (VfsTree × A)
  guarded body t = do
    if t.held then relock else ok tt
    (s, a) ← body (record t { held = true })
    ok (record s { held = t.held }, a)

  module _ (fuel depth : ℕ) where
    unfoldable pub get_root : VfsTree → Result (VfsTree × Option ℕ)
    unfolding guarded root_body
    get_root = guarded (root_body fuel depth)

    abbrev pub or_descend : VfsTree → List Bytes → Option ℕ → Result (VfsTree × Option ℕ)
    or_descend t parts (some id) = ok (t, some id)
    or_descend t parts none = get_root t >>= from_root fuel depth parts

    unfoldable pub find_body : Bytes → VfsTree → Result (VfsTree × Option ℕ)
    unfolding cached descend get_root
    find_body path t =
        let norm = normalize_path path in
        if same norm [] then get_root t else or_descend t (cut_path norm) (cached norm t.node_cache)

    unfoldable pub find_node : VfsTree → Bytes → Result (VfsTree × Option ℕ)
    unfolding guarded find_body
    find_node t path = guarded (find_body path) t

-- A UTF-16 path, of which each unit is cut to a `char`.
abbrev pub narrow : List ℕ → Bytes
narrow units = map (λ u. u % 256) units
