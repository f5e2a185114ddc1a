-- ===== src/Projfs.antt =====
-- src/vfs/projfs_mount.cpp: what ProjFS calls to enumerate a directory, over one projection of a tree.
-- The functions of ProjectedFSLib.dll are parameters.
pub mod Scan
pub mod Delivery
pub mod Opening
pub mod Listing
pub mod Files
pub mod Content
pub mod Lifetime
pub mod Balance
mod Runs
use linux2win.Base.{
  ℕ, suc, ◌+◌, ◌^◌, Bool, true, false, not, ◌&&◌, ◌||◌, Option, none, some, List, [], ◌∷◌, Bytes,
  Result, ok, fault, ◌>>=◌, drop, same, codes, leb, ltb, ◌==◌, if◌then◌else◌, is_some, bit_or, map,
}
use linux2win.Guid.{Guid, guid_eq}
use linux2win.Ext4.Reader.{Ext4Reader}
use linux2win.Vfs.Names.{FileTime}
use linux2win.Vfs.{
  VfsNode, VfsTree, node_at, file_attribute_readonly, find_node, ensure_children_loaded, narrow,
}

abbrev pub s_ok : ℕ
s_ok = 0

-- For a code from 1 to 65535.
abbrev pub hresult_from_win32 : ℕ → ℕ
hresult_from_win32 code = 0x8007_0000 + code

-- `FAILED`: the sign bit.
abbrev pub failed_hr : ℕ → Bool
failed_hr hr = leb (2 ^ 31) hr

abbrev pub error_file_not_found : ℕ
error_file_not_found = hresult_from_win32 2

abbrev pub error_no_more_files : ℕ
error_no_more_files = hresult_from_win32 18

abbrev pub error_invalid_parameter : ℕ
error_invalid_parameter = hresult_from_win32 87

abbrev pub error_insufficient_buffer : ℕ
error_insufficient_buffer = hresult_from_win32 122

-- `FilePathName` may be null; `restart` is PRJ_CB_DATA_FLAG_ENUM_RESTART_SCAN.
pub record CallbackData : Type 0 where
  pub has_context : Bool
  pub file_path_name : Option (List ℕ)
  pub restart : Bool
  pub stream_id : Guid

abbrev pub rel_path : CallbackData → List ℕ
rel_path call = elim call.file_path_name [ none ↦ [] | some path ↦ path ]

pub record DirEnumSession : Type 0 where
  pub search_expression : List ℕ
  pub matching_entries : List ℕ
  pub current_index : ℕ

-- The tree of a mount, and `g_enum_sessions`.
pub record Projection : Type 0 where
  pub tree : Option VfsTree
  pub sessions : List (Guid × DirEnumSession)

-- `instance_from_context`: is there a mount behind the call?
abbrev pub has_instance : Option CallbackData → Bool
has_instance none = false
has_instance (some call) = call.has_context

unfoldable pub find_session : Guid → List (Guid × DirEnumSession) → Option DirEnumSession
find_session id [] = none
find_session id ((k, s) ∷ rest) =
    let later = find_session id rest in if guid_eq k id then some s else later

unfoldable pub erase_session : Guid → List (Guid × DirEnumSession) → List (Guid × DirEnumSession)
erase_session id [] = []
erase_session id ((k, s) ∷ rest) =
    let later = erase_session id rest in if guid_eq k id then later else (k, s) ∷ later

unfoldable pub put_session :
    Guid → DirEnumSession → List (Guid × DirEnumSession) → List (Guid × DirEnumSession)
unfolding erase_session
put_session id s sessions = (id, s) ∷ erase_session id sessions

pub record BasicInfo : Type 0 where
  pub is_directory : Bool
  pub file_size : ℕ
  pub creation_time : FileTime
  pub last_access_time : FileTime
  pub last_write_time : FileTime
  pub change_time : FileTime
  pub file_attributes : ℕ

abbrev pub basic_info : VfsNode → BasicInfo
basic_info node = record {
  is_directory = node.is_directory;
  file_size = node.file_size;
  creation_time = node.creation_time;
  last_access_time = node.last_access_time;
  last_write_time = node.last_write_time;
  change_time = node.last_write_time;
  file_attributes = bit_or node.file_attributes file_attribute_readonly;
}

-- Each `char` becomes a UTF-16 unit; the type is signed, so the sign bit is carried on.
abbrev pub widen : Bytes → List ℕ
widen name = map (λ c. if ltb c 128 then c else 0xff00 + c) name

-- `fuel`, `depth` and `relock` are those of the tree.
module _ (relock : Result (Unit {0})) (fuel depth : ℕ) where
  abbrev pub open_session : Projection → VfsTree → Guid → Option ℕ → Result (Projection × ℕ)
  open_session p t id none = ok (record p { tree = some t }, error_file_not_found)
  open_session p t id (some found) = do
    node ← node_at t found
    if not node.is_directory
        then ok (record p { tree = some t }, error_file_not_found)
        else ensure_children_loaded fuel depth t found >>= λ loaded.
            node_at loaded.0 found >>= λ parent.
            let session : DirEnumSession = record {
              search_expression = [];
              matching_entries = parent.children;
              current_index = 0;
            } in
            ok (record { tree = some loaded.0; sessions = put_session id session p.sessions }, s_ok)

  unfoldable pub start_dir_enum : Projection → Option CallbackData → Guid → Result (Projection × ℕ)
  unfolding put_session
  start_dir_enum p none id = ok (p, error_invalid_parameter)
  start_dir_enum p (some call) id = elim p.tree [
    | none ↦ ok (p, error_invalid_parameter)
    | some t ↦
        if not call.has_context
        then ok (p, error_invalid_parameter)
        else find_node relock fuel depth t (narrow (rel_path call)) >>= λ found.
            open_session p found.0 id found.1
  ]

unfoldable pub end_dir_enum : Projection → Guid → Projection × ℕ
unfolding erase_session
end_dir_enum p id = (record p { sessions = erase_session id p.sessions }, s_ok)

abbrev pub entry_at : Option VfsTree → ℕ → Result VfsNode
entry_at none id = fault
entry_at (some t) id = node_at t id

-- Does the entry pass the search expression? `name_match` is `PrjFileNameMatch`, a pointer that may be null.
abbrev pub is_match : Option (List ℕ → List ℕ → Bool) → List ℕ → List ℕ → Bool
is_match name_match expression name =
    if not (same expression []) && not (same expression (codes "*"))
    then elim name_match [ none ↦ true | some matches ↦ matches name expression ]
    else true

abbrev pub set_restart : Bool → DirEnumSession → DirEnumSession
set_restart restart s = record s { current_index = if restart then 0 else s.current_index }

-- A search expression that is given and not empty is kept.
abbrev pub set_expression : Option (List ℕ) → DirEnumSession → DirEnumSession
set_expression none s = s
set_expression (some []) s = s
set_expression (some (c ∷ cs)) s = record s { search_expression = c ∷ cs }

-- `fill` is `PrjFillDirEntryBuffer` on a buffer.
module _ {Buffer : Type 0} (name_match : Option (List ℕ → List ℕ → Bool))
    (fill : List ℕ → BasicInfo → Buffer → ℕ × Buffer) where
  -- The loop from the current index on: the index behind it, the answer, and the buffer.
  unfoldable pub fill_loop :
      Option VfsTree → List ℕ → List ℕ → ℕ → Bool → Buffer → Result (ℕ × ℕ × Buffer)
  fill_loop tree expression [] index added buffer =
      ok (index, (if added then s_ok else error_no_more_files), buffer)
  fill_loop tree expression (id ∷ ids) index added buffer = entry_at tree id >>= λ entry.
      elim (is_match name_match expression (widen entry.name)) [
        | false ↦ fill_loop tree expression ids (index + 1) added buffer
        | true ↦
            let (hr, after) = fill (widen entry.name) (basic_info entry) buffer in
            elim (hr == error_insufficient_buffer) [
              | true ↦ ok (index, (if added then s_ok else hr), after)
              | false ↦ elim (failed_hr hr) [
                | true ↦ ok (index, hr, after)
                | false ↦ fill_loop tree expression ids (index + 1) true after
              ]
            ]
      ]

  abbrev pub fill_session :
      Projection → Guid → DirEnumSession → Buffer → Result (Projection × ℕ × Buffer)
  fill_session p id s buffer =
      fill_loop p.tree s.search_expression (drop s.current_index s.matching_entries) s.current_index
        false buffer
      >>= λ filled. ok (
        record p { sessions = put_session id (record s { current_index = filled.0 }) p.sessions },
        filled.1,
        filled.2,
      )

  unfoldable pub get_dir_enum :
      Projection
      → Option CallbackData
      → Guid
      → Option (List ℕ)
      → Buffer
      → Result (Projection × ℕ × Buffer)
  unfolding fill_loop find_session put_session
  get_dir_enum p none id search buffer = ok (p, error_invalid_parameter, buffer)
  get_dir_enum p (some call) id search buffer =
      if not call.has_context
      then ok (p, error_invalid_parameter, buffer)
      else elim (find_session id p.sessions) [
        | none ↦ ok (p, error_invalid_parameter, buffer)
        | some s ↦ fill_session p id (set_expression search (set_restart call.restart s)) buffer
      ]
