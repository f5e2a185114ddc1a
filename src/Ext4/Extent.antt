-- ===== src/Ext4/Extent.antt =====
-- `resolve_extent_block` and `parse_extent_node` of src/fs/ext4_reader.cpp. The two search a node in
-- the same way, the first in the inode and the second in a block that it reads.
pub mod Search
pub mod Depth
use linux2win.Base.{
  ℕ, zero, suc, ◌+◌, ◌-◌, ◌*◌, ◌%◌, Bool, ◌&&◌, Option, none, some, Bytes, Result, ok, failed,
  stuck, guard, ◌>>=◌, ◌>>◌, ltb, leb, ◌==◌, if◌then◌else◌, u32, u64,
}
use linux2win.Ext4.Layout.{
  extent_header, extent, extent_idx, inode, sizeof, load_field, field_bytes,
}
use linux2win.Ext4.Reader.{Ext4Reader, join32}
use linux2win.Ext4.Inode.{device_block}

abbrev pub extent_magic : ℕ
extent_magic = 0xf30a

-- Entry `i` of the array behind the header: leaf and index entries have one size.
abbrev pub entry_at : ℕ → ℕ
entry_at i = 12 + 12 * i

-- What a node says of a logical block: its physical block, or the node to go on with.
pub data Step : Type 0 where
  found : ℕ → Step
  descend : ℕ → Step

-- More than 32768 marks an extent that is allocated and not written.
abbrev pub extent_length : ℕ → ℕ
extent_length len = if leb len 32768 then len else len - 32768

-- `block + length` is a sum of 32 bits.
abbrev pub covers : ℕ → ℕ → ℕ → Bool
covers logical block len = leb block logical && ltb logical ((block + len) % u32)

unfoldable pub physical : Bytes → ℕ → ℕ → ℕ → Result Step
physical node i logical block = do
  lo ← load_field extent "ee_start_lo" node (entry_at i)
  hi ← load_field extent "ee_start_hi" node (entry_at i)
  ok (found ((join32 lo hi + (logical - block)) % u64))

-- The loop over the extents from entry `i` on, with the entries that are left as the bound.
unfoldable pub scan_extents : Bytes → ℕ → ℕ → ℕ → Result Step
unfolding physical
scan_extents node logical zero i = failed
scan_extents node logical (suc left) i =
    let rest = scan_extents node logical left (i + 1) in
    do
      block ← load_field extent "ee_block" node (entry_at i)
      len ← load_field extent "ee_len" node (entry_at i)
      if covers logical block (extent_length len) then physical node i logical block else rest

-- The loop over the index entries; `chosen` is `chosen_idx`, with `none` for -1.
unfoldable pub choose_index : Bytes → ℕ → ℕ → ℕ → Option ℕ → Result (Option ℕ)
choose_index node logical zero i chosen = ok chosen
choose_index node logical (suc left) i chosen =
    let rest = choose_index node logical left (i + 1) (some i) in
    do
      block ← load_field extent_idx "ei_block" node (entry_at i)
      if leb block logical then rest else ok chosen

unfoldable pub next_node : Bytes → Option ℕ → Result Step
next_node node none = failed
next_node node (some i) = do
  lo ← load_field extent_idx "ei_leaf_lo" node (entry_at i)
  hi ← load_field extent_idx "ei_leaf_hi" node (entry_at i)
  ok (descend (join32 lo hi))

unfoldable pub search_node : Bytes → ℕ → Result Step
unfolding scan_extents choose_index next_node
search_node node logical = do
  magic ← load_field extent_header "eh_magic" node 0
  guard (magic == extent_magic)
  depth ← load_field extent_header "eh_depth" node 0
  entries ← load_field extent_header "eh_entries" node 0
  if depth == 0
      then scan_extents node logical entries 0
      else (do chosen ← choose_index node logical entries 0 none; next_node node chosen)

-- The recursion has no bound in the source; here it has fuel.
unfoldable pub parse_extent_node : ℕ → Ext4Reader → ℕ → ℕ → Result ℕ
parse_extent_node zero r block logical = stuck
parse_extent_node (suc fuel) r block logical = device_block r block >>= λ node.
    search_node node logical
    >>= elim [ found p ↦ ok p | descend next ↦ parse_extent_node fuel r next logical ]

unfoldable pub resolve_extent_block : ℕ → Ext4Reader → Bytes → ℕ → Result ℕ
resolve_extent_block fuel r node_inode logical =
    search_node (field_bytes inode "i_block" node_inode) logical
    >>= elim [ found p ↦ ok p | descend next ↦ parse_extent_node fuel r next logical ]
