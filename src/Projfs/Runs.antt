-- ===== src/Projfs/Runs.antt =====
-- An enumeration of the root directory with buffers for one entry, and a read of its file.
use linux2win.Base.{
  fault, ℕ, ◌≤◌, ◌≡◌, ◌≢◌, refl, true, false, none, some, List, [], ◌∷◌, ◌++◌, ok, or_else, codes,
  All, map, length, get_elem?, arith,
}
use linux2win.Guid.{no_guid}
use linux2win.Ext4.Layout.{field, sizeof, load, load_field}
use linux2win.Ext4.Inode.{read_inode, device_block}
use linux2win.Ext4.Indirect.{read_indirect_block}
use linux2win.Ext4.File.{stat_inode, read_file_data, block_chunk, lookup_block}
use linux2win.Ext4.Directory.{list_directory, parse_entries, entry_here, named_entry, typed}
use linux2win.Vfs.{VfsTree, VfsNode, find_node, narrow, ensure_children_loaded, node_at, add_child}
use linux2win.Vfs.Names.{normalize_path}
use linux2win.Vfs.Mirror.{Child, listing}
use linux2win.Vfs.Runs.{small, filled, filled-IsTree}
use linux2win.Projfs.{
  s_ok, failed_hr, error_insufficient_buffer, error_no_more_files, CallbackData, Projection,
  BasicInfo, rel_path, start_dir_enum,
}
use linux2win.Projfs.Scan.{Entry, IsDirBuffer, IsRoomy}
use linux2win.Projfs.Delivery.{scan, delivered, HasEnded}
use linux2win.Projfs.Listing.{face, matching, wanted, enumeration-lists}
use linux2win.Projfs.Files.{PrjApi}

abbrev fill_one : List ℕ → BasicInfo → List Entry → ℕ × List Entry
fill_one name info [] = (s_ok, (name, info) ∷ [])
fill_one name info (e ∷ es) = (error_insufficient_buffer, e ∷ es)

abbrev whole : List Entry → List Entry
whole entries = entries

fill_one-IsDirBuffer : IsDirBuffer fill_one whole
fill_one-IsDirBuffer = record { takes = takes; keeps = keeps; never_ends = never_ends }
  where
    takes :
        (name : List ℕ) (info : BasicInfo) (b : List Entry)
        → failed_hr (fill_one name info b).0 ≡ false
        → (fill_one name info b).1 ≡ b ++ ((name, info) ∷ [])
    takes name info [] e = refl
    takes name info (b ∷ bs) e = cc

    keeps :
        (name : List ℕ) (info : BasicInfo) (b : List Entry)
        → failed_hr (fill_one name info b).0 ≡ true
        → (fill_one name info b).1 ≡ b
    keeps name info [] e = cc
    keeps name info (b ∷ bs) e = refl

    never_ends :
        (name : List ℕ) (info : BasicInfo) (b : List Entry)
        → (fill_one name info b).0 ≢ error_no_more_files
    never_ends name info [] e = ground arith
    never_ends name info (b ∷ bs) e = ground arith

abbrev tree : VfsTree
tree = filled

abbrev projection : Projection
projection = record { tree = some tree; sessions = [] }

abbrev call_on : List ℕ → CallbackData
call_on path = record {
  has_context = true;
  file_path_name = some path;
  restart = false;
  stream_id = no_guid;
}

started :
    (q : Projection) × (start_dir_enum fault 5 0 projection (some (call_on (codes "d"))) no_guid
      ≡ ok (q, s_ok))
unfolding start_dir_enum find_node list_directory stat_inode read_inode field sizeof read_file_data
    block_chunk lookup_block read_indirect_block load device_block parse_entries load_field
    entry_here named_entry typed ensure_children_loaded normalize_path node_at add_child
started = (_, refl)

enumeration-lists_example :
    (found : VfsTree) × (nid : ℕ) × (node : VfsNode) × (kids : List Child) × (after : Projection)
    × (results : List (ℕ × List Entry)) × (rest : List Entry) × (find_node fault 5 0 tree
          (narrow (rel_path (call_on (codes "d"))))
        ≡ ok (found, some nid))
    × (get_elem? found.nodes nid ≡ some node)
    × (node.is_directory ≡ true)
    × (or_else (listing 5 0 small node.inode_num) [] ≡ ok kids)
    × (scan none fill_one started.0 (call_on (codes "d")) no_guid none ([] ∷ [] ∷ [])
        ≡ ok (after, results))
    × (map face (delivered none fill_one whole fill_one-IsDirBuffer results ++ rest)
        ≡ matching none (wanted none) kids)
    × (HasEnded none fill_one whole fill_one-IsDirBuffer results → rest ≡ [])
    × (All (IsRoomy none fill_one whole fill_one-IsDirBuffer) ([] ∷ [] ∷ [])
        → length (matching none (wanted none) kids) ≤ 2
        → rest ≡ [])
enumeration-lists_example =
    enumeration-lists fault 5 0 small tree projection started.0 (call_on (codes "d"))
      (call_on (codes "d")) no_guid none fill_one whole fill_one-IsDirBuffer none ([] ∷ [] ∷ [])
      refl filled-IsTree refl refl started.1 refl refl (refl, (refl, tt))

abbrev api : PrjApi
api = record {
  allocate_aligned_buffer = some (λ size. true);
  can_free = true;
  write_placeholder_info = λ path info. s_ok;
  write_file_data = λ stream bytes offset size. s_ok;
}
