-- ===== src/Projfs/Content.antt =====
-- What ProjFS is given of a file, and what it is refused.
use linux2win.Base.{
  ℕ, ◌%◌, ◌≡◌, ◌⊎◌, true, false, Option, none, some, [], ◌∷◌, List, Bytes, ok, failed, length,
  get_elem?, u32,
}
use linux2win.Ext4.Reader.{Ext4Reader}
use linux2win.Ext4.File.{read_file_data}
use linux2win.Vfs.{VfsNode, VfsTree}
use linux2win.Projfs.{error_file_not_found, CallbackData, Projection}
use linux2win.Projfs.Files.{
  error_not_enough_memory, error_read_fault, PrjApi, PrjCall, allocates, writes, frees_if,
  is_allocated, Answer,
}

module _ (fuel depth : ℕ) (r : Ext4Reader) (api : PrjApi) where
  -- For a file with a buffer.
  abbrev pub IsRead : VfsNode → CallbackData → ℕ → ℕ → ℕ → List PrjCall → Type 0
  IsRead node call offset size hr calls =
      ((read_file_data fuel depth r node.inode_num offset size ≡ failed)
        × (hr ≡ error_read_fault)
        × (calls ≡ allocates size ∷ frees_if api.can_free))
      ⊎ ((bytes : Bytes) × (read_file_data fuel depth r node.inode_num offset size ≡ ok bytes)
          × (hr ≡ api.write_file_data call.stream_id bytes offset (length bytes % u32))
          × (calls
              ≡ allocates size
                ∷ (writes call.stream_id bytes offset (length bytes % u32)
                    ∷ frees_if api.can_free)))

  -- For a node.
  abbrev pub IsServedNode : VfsNode → CallbackData → ℕ → ℕ → ℕ → List PrjCall → Type 0
  IsServedNode node call offset size hr calls =
      ((node.is_directory ≡ true) × (calls ≡ []) × (hr ≡ error_file_not_found))
      ⊎ (((node.is_directory ≡ false)
            × (is_allocated api size ≡ false)
            × (calls ≡ [])
            × (hr ≡ error_not_enough_memory))
          ⊎ ((node.is_directory ≡ false)
              × (is_allocated api size ≡ true)
              × IsRead node call offset size hr calls))

  -- What a request for content does once the lookup has found `o` in the tree `m`: which file, which
  -- calls, which answer.
  abbrev pub IsServed : Projection → VfsTree → Option ℕ → CallbackData → ℕ → ℕ → Answer → Type 0
  IsServed p m o call offset size (q, hr, calls) =
      (q ≡ record p { tree = some m })
      × (((o ≡ none) × (calls ≡ []) × (hr ≡ error_file_not_found))
          ⊎ ((nid : ℕ) × (node : VfsNode) × (o ≡ some nid)
              × (get_elem? m.nodes nid ≡ some node)
              × IsServedNode node call offset size hr calls))
