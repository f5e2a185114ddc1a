-- ===== src/Projfs/Files.antt =====
-- src/vfs/projfs_mount.cpp: what ProjFS calls for a file: its placeholder, its content, and before or
-- after changes.
use linux2win.Base.{
  ℕ, ◌%◌, Bool, true, false, not, Option, none, some, List, [], ◌∷◌, Bytes, Result, ok, attempt,
  ◌>>=◌, length, if◌then◌else◌, u32,
}
use linux2win.Guid.{Guid}
use linux2win.Ext4.Reader.{Ext4Reader}
use linux2win.Ext4.File.{read_file_data}
use linux2win.Vfs.{VfsTree, node_at, find_node, narrow}
use linux2win.Projfs.{
  s_ok, hresult_from_win32, error_file_not_found, error_invalid_parameter, CallbackData, rel_path,
  Projection, BasicInfo, basic_info,
}

abbrev pub error_access_denied : ℕ
error_access_denied = hresult_from_win32 5

abbrev pub error_not_enough_memory : ℕ
error_not_enough_memory = hresult_from_win32 8

abbrev pub error_read_fault : ℕ
error_read_fault = hresult_from_win32 30

-- The functions of ProjectedFSLib.dll; the two for buffers are pointers that may be null, and an
-- allocation may give null.
pub record PrjApi : Type 0 where
  pub allocate_aligned_buffer : Option (ℕ → Bool)
  pub can_free : Bool
  pub write_placeholder_info : Option (List ℕ) → BasicInfo → ℕ
  pub write_file_data : Guid → Bytes → ℕ → ℕ → ℕ

-- The calls of them, in order.
pub data PrjCall : Type 0 where
  places : Option (List ℕ) → BasicInfo → PrjCall
  allocates : ℕ → PrjCall
  frees : PrjCall
  writes : Guid → Bytes → ℕ → ℕ → PrjCall

abbrev pub frees_if : Bool → List PrjCall
frees_if can_free = if can_free then frees ∷ [] else []

abbrev pub Answer : Type 0
Answer = Projection × ℕ × List PrjCall

abbrev pub is_allocated : PrjApi → ℕ → Bool
is_allocated api size = elim api.allocate_aligned_buffer [
  | none ↦ false
  | some allocate ↦ allocate size
]

module _ (relock : Result (Unit {0})) (fuel depth : ℕ) (api : PrjApi) where
  abbrev pub place : Projection → Option (List ℕ) → VfsTree × Option ℕ → Result Answer
  place p path (t, none) = ok (record p { tree = some t }, error_file_not_found, [])
  place p path (t, some found) = node_at t found >>= λ node. ok (
    record p { tree = some t },
    api.write_placeholder_info path (basic_info node),
    places path (basic_info node) ∷ [],
  )

  unfoldable pub get_placeholder_info : Projection → Option CallbackData → Result Answer
  get_placeholder_info p none = ok (p, error_invalid_parameter, [])
  get_placeholder_info p (some call) = elim p.tree [
    | none ↦ ok (p, error_invalid_parameter, [])
    | some t ↦
        if not call.has_context
        then ok (p, error_invalid_parameter, [])
        else find_node relock fuel depth t (narrow (rel_path call)) >>= place p call.file_path_name
  ]

  -- Once the buffer is there: what was read is written, and the buffer is freed.
  abbrev pub write_data : Projection → Guid → ℕ → ℕ → Option Bytes → Answer
  write_data p stream offset size none =
      (p, error_read_fault, allocates size ∷ frees_if api.can_free)
  write_data p stream offset size (some bytes) = (
    p,
    api.write_file_data stream bytes offset (length bytes % u32),
    allocates size ∷ (writes stream bytes offset (length bytes % u32) ∷ frees_if api.can_free),
  )

  abbrev pub read_data : Projection → Guid → Ext4Reader → ℕ → ℕ → VfsTree × Option ℕ → Result Answer
  read_data p stream r offset size (t, none) =
      ok (record p { tree = some t }, error_file_not_found, [])
  read_data p stream r offset size (t, some found) = node_at t found >>= λ node.
      if node.is_directory
      then ok (record p { tree = some t }, error_file_not_found, [])
      else if not (is_allocated api size)
      then ok (record p { tree = some t }, error_not_enough_memory, [])
      else attempt (read_file_data fuel depth r node.inode_num offset size) >>= λ bytes.
          ok (write_data (record p { tree = some t }) stream offset size bytes)

  abbrev pub with_reader :
      Projection → CallbackData → VfsTree → ℕ → ℕ → Option Ext4Reader → Result Answer
  with_reader p call t offset size none = ok (p, error_invalid_parameter, [])
  with_reader p call t offset size (some r) =
      find_node relock fuel depth t (narrow (rel_path call))
      >>= read_data p call.stream_id r offset size

  unfoldable pub get_file_data : Projection → Option CallbackData → ℕ → ℕ → Result Answer
  get_file_data p none offset size = ok (p, error_invalid_parameter, [])
  get_file_data p (some call) offset size = elim p.tree [
    | none ↦ ok (p, error_invalid_parameter, [])
    | some t ↦
        if not call.has_context
        then ok (p, error_invalid_parameter, [])
        else with_reader p call t offset size t.reader
  ]

-- PRJ_NOTIFICATION.
pub data Notification : Type 0 where
  file_opened new_file_created file_overwritten pre_delete pre_rename pre_set_hardlink :
      Notification
  file_renamed hardlink_created file_handle_closed_no_modification : Notification
  file_handle_closed_file_modified file_handle_closed_file_deleted pre_convert_to_full :
      Notification

abbrev pub is_denied : Notification → Bool
is_denied file_opened = true
is_denied new_file_created = true
is_denied file_overwritten = true
is_denied pre_delete = true
is_denied pre_rename = true
is_denied pre_set_hardlink = true
is_denied other = false

unfoldable pub notification_callback : Notification → ℕ
notification_callback notification = if is_denied notification then error_access_denied else s_ok
