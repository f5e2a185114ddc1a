-- ===== src/Vfs/Runs.antt =====
-- A volume of two inodes: the root directory, and a file `a` in it.
use linux2win.Base.{
  subst, some-inj, get_elem?, or_else, List, Bytes, Bool, ◌≢◌, ℕ, zero, suc, ◌+◌, ◌*◌, ◌<◌, ◌≡◌,
  refl, inr, true, false, none, some, [], ◌∷◌, ◌++◌, arith, ok, failed, fault, attempt, codes,
  le_bytes, Gives, u32,
}
use linux2win.Ext4.Layout.{field, sizeof, load, load_field}
use linux2win.Ext4.Reader.{Ext4Reader, sb_field}
use linux2win.Ext4.Inode.{read_inode, device_block}
use linux2win.Ext4.Indirect.{read_indirect_block}
use linux2win.Ext4.File.{FileStat, stat_inode, read_file_data, block_chunk, lookup_block}
use linux2win.Ext4.Directory.{
  DirEntryInfo, info_of, list_directory, parse_entries, entry_here, named_entry, typed,
}
use linux2win.Ext4.Runs.{Image, padded, inode_bytes, dir_entry, device_on, reader_of}
use linux2win.Ext4.Path.{root_inode, split_path}
use linux2win.Vfs.{VfsTree, VfsNode, new_tree, cached, find_node, ensure_children_loaded, add_child}
use linux2win.Vfs.Names.{
  normalize_path, cut_path, same_name, epoch_difference, unix_epoch_to_filetime,
}
use linux2win.Vfs.Store.{Grows}
use linux2win.Vfs.Mirror.{IsTree, Mirrors, Child, AllShow, visible, listing, choose, resolve}
use linux2win.Vfs.Cuts.{cut_path-normalize, unix_epoch_to_filetime-exact}
use linux2win.Vfs.Find.{find_node-relock}
use linux2win.Vfs.Cache.{add_child-cached}
use linux2win.Vfs.Total.{IsSettled, ensure_children_loaded-mirrors}

abbrev two_inodes : Image
two_inodes =
    (2048, padded 8 [] ++ le_bytes 4 5)
    ∷ (5120, inode_bytes 0x81a4 5 [])
    ∷ (5120 + 128, inode_bytes 0x41ed 1024 (le_bytes 4 22))
    ∷ (22 * 1024, dir_entry 2 12 2 (b'.' ∷ []) ++ dir_entry 1 1012 1 (b'a' ∷ []))
    ∷ []

abbrev pub small : Ext4Reader
small = record (reader_of 2 (device_on two_inodes)) {
  sb = padded 1024 (padded 40 (le_bytes 4 2) ++ le_bytes 4 2);
}

small_count :
    (sb_field "s_inodes_count" small.sb ≡ 2) × (sb_field "s_inodes_per_group" small.sb ≡ 2)
unfolding field
small_count = (refl, refl)

pub no_more : (k : ℕ) → read_inode small (suc (suc (suc k))) ≡ failed
unfolding read_inode
no_more k = rw small_count.0 (ground arith)

stats : (number : ℕ) → Gives (attempt (stat_inode 5 0 small number))
unfolding stat_inode read_inode field sizeof
stats zero = (_, refl)
stats (suc zero) = (_, refl)
stats (suc (suc zero)) = (_, refl)
stats (suc (suc (suc k))) = (none, failing k)
  where
    failing : (k : ℕ) → attempt (stat_inode 5 0 small (suc (suc (suc k)))) ≡ ok none
    failing k = rw (no_more k, stat_inode) refl

lists : (number : ℕ) → Gives (attempt (list_directory 5 0 small number))
unfolding list_directory read_inode field sizeof read_file_data block_chunk lookup_block
    read_indirect_block load device_block parse_entries load_field entry_here named_entry typed
lists zero = (_, refl)
lists (suc zero) = (_, refl)
lists (suc (suc zero)) = (_, refl)
lists (suc (suc (suc k))) = (none, failing k)
  where
    failing : (k : ℕ) → attempt (list_directory 5 0 small (suc (suc (suc k)))) ≡ ok none
    failing k = rw (no_more k, list_directory) refl

pub settled : IsSettled 5 0 small
settled = (stats, lists)

-- A node of the tree that is not loaded.
abbrev bare : Bytes → ℕ → Bool → VfsNode
bare name number is_directory = record {
  name = name;
  relative_path = name;
  inode_num = number;
  file_size = 5;
  file_attributes = 1;
  creation_time = record { low = 0; high = 0 };
  last_access_time = record { low = 0; high = 0 };
  last_write_time = record { low = 0; high = 0 };
  is_directory = is_directory;
  is_symlink = false;
  children_loaded = false;
  children = [];
}

-- A tree whose cache has a directory and a file of the volume.
abbrev pub filled : VfsTree
filled = record {
  reader = some small;
  nodes = bare (codes "d") 2 true ∷ bare (codes "a") 1 false ∷ [];
  root = none;
  node_cache = (codes "d", 0) ∷ (codes "a", 1) ∷ [];
  held = false;
}

bare-Mirrors :
    (name : Bytes) (number : ℕ) (kind : Bool) (n : VfsNode)
    → some (bare name number kind) ≡ some n
    → Mirrors 5 0 small filled.nodes n
bare-Mirrors name number kind n e =
    subst (Mirrors 5 0 small filled.nodes) (some-inj e) ((λ e'. cc), λ e'. refl)

mirrored :
    (i : ℕ) (n : VfsNode) → get_elem? filled.nodes i ≡ some n → Mirrors 5 0 small filled.nodes n
mirrored zero n e = bare-Mirrors (codes "d") 2 true n e
mirrored (suc zero) n e = bare-Mirrors (codes "a") 1 false n e
mirrored (suc (suc i)) n e = cc

paths : (normalize_path (codes "d") ≡ codes "d") × (normalize_path (codes "a") ≡ codes "a")
unfolding normalize_path
paths = (refl, refl)

pub filled-IsTree : IsTree 5 0 small filled
filled-IsTree = record {
  reads = refl;
  mirror = mirrored;
  cache = ((_, refl, paths.0), ((_, refl, paths.1), tt));
  root = tt;
}

ensure_children_loaded-mirrors_example :
    (s : VfsTree) × (b : Bool) × (node : VfsNode) × (kids : List Child) × (ensure_children_loaded 5
        0 filled 0
      ≡ ok (s, b))
    × IsTree 5 0 small s
    × Grows filled.nodes s.nodes
    × (get_elem? s.nodes 0 ≡ some node)
    × (or_else (listing 5 0 small 2) [] ≡ ok kids)
    × AllShow s.nodes node.children kids
ensure_children_loaded-mirrors_example =
    ensure_children_loaded-mirrors 5 0 small settled filled 0 (bare (codes "d") 2 true)
      filled-IsTree refl refl

abbrev entry_b : DirEntryInfo
entry_b = info_of 1 (codes "b") 1

abbrev stat_b : FileStat
stat_b = record {
  inode_num = 1;
  size = 5;
  mode = 0x81a4;
  uid = 0;
  gid = 0;
  atime = 0;
  mtime = 0;
  ctime = 0;
  crtime = 0;
  is_directory = false;
  is_regular = true;
  is_symlink = false;
  symlink_target = [];
}

spelled :
    (split_path (codes "/d//b") ≡ split_path (codes "d") ++ (codes "b" ∷ []))
    × (split_path (codes "a") ≢ split_path (codes "/d//b"))
unfolding split_path
spelled = (refl, λ e. cc)

add_child-cached_example :
    (node : VfsNode) × (cached
        (normalize_path (codes "/d//b"))
        (add_child filled 0 (bare (codes "d") 2 true) entry_b stat_b).node_cache
      ≡ some 2)
    × (get_elem? (add_child filled 0 (bare (codes "d") 2 true) entry_b stat_b).nodes 2 ≡ some node)
    × (node.inode_num ≡ 1)
    × (split_path node.relative_path ≡ split_path (codes "d") ++ (codes "b" ∷ []))
    × (cached
          (normalize_path (codes "a"))
          (add_child filled 0 (bare (codes "d") 2 true) entry_b stat_b).node_cache
        ≡ cached (normalize_path (codes "a")) filled.node_cache)
add_child-cached_example =
    add_child-cached filled 0 (bare (codes "d") 2 true) entry_b stat_b (codes "/d//b") (codes "a")
      ((λ e. cc), (refl, tt)) spelled.0 spelled.1

uncached : cached (normalize_path (codes "a")) [] ≡ none
unfolding cached
uncached = refl

find_node-relock_example : find_node fault 5 0 (new_tree (some small)) (codes "a") ≡ fault
find_node-relock_example =
    find_node-relock 5 0 (new_tree (some small)) (codes "a") refl (inr uncached)

-- The file has inode 1, whatever the case of its name.
resolves_a : resolve 5 0 small root_inode true (split_path (codes "/A")) ≡ ok (some 1)
unfolding resolve listing visible choose same_name stat_inode split_path list_directory read_inode
    field sizeof read_file_data block_chunk lookup_block read_indirect_block load device_block
    parse_entries load_field entry_here named_entry typed
resolves_a = refl

cut_path-normalize_example :
    cut_path (normalize_path (codes "/a//b\\")) ≡ split_path (codes "/a//b\\")
cut_path-normalize_example = cut_path-normalize (codes "/a//b\\")

-- 2001-09-09 01:46:40 UTC.
unix_epoch_to_filetime-exact_example :
    let time = unix_epoch_to_filetime 1000000000 in
    (time.low < u32)
    × (time.high < u32)
    × (time.low + u32 * time.high ≡ 1000000000 * 10000000 + epoch_difference)
unix_epoch_to_filetime-exact_example = unix_epoch_to_filetime-exact 1000000000 (omega arith)
