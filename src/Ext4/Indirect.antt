-- ===== src/Ext4/Indirect.antt =====
-- `read_indirect_block` of src/fs/ext4_reader.cpp: the block map of ext2 and ext3, with direct, singly
-- and doubly indirect blocks. Block 14, the triply indirect one, is not looked at.
pub mod Bounds
use linux2win.Base.{
  ℕ, ◌+◌, ◌-◌, ◌*◌, ◌/◌, ◌%◌, not, Bytes, Result, ok, failed, guard, ◌>>=◌, ◌>>◌, ltb, ◌==◌,
  if◌then◌else◌, u32,
}
use linux2win.Ext4.Layout.{inode, load, field_bytes}
use linux2win.Ext4.Reader.{Ext4Reader}
use linux2win.Ext4.Inode.{device_block}

-- `array[i]` of 32-bit numbers.
unfoldable pub pointer_at : Bytes → ℕ → Result ℕ
pointer_at array i = load array (4 * i) 4

-- `physical_block = array[i]; return physical_block != 0;`
unfoldable pub mapped : Bytes → ℕ → Result ℕ
unfolding pointer_at
mapped array i = do p ← pointer_at array i; guard (not (p == 0)); ok p

unfoldable pub through_block : Ext4Reader → ℕ → ℕ → Result ℕ
unfolding mapped
through_block r block i = do
  guard (not (block == 0))
  pointers ← device_block r block
  mapped pointers i

-- The lookup in the fifteen pointers of an inode.
unfoldable pub map_block : Ext4Reader → Bytes → ℕ → Result ℕ
unfolding through_block
map_block r direct logical =
    let per_block = r.block_size / 4 in
    let single = logical - 12 in
    let double = single - per_block in
    if ltb logical 12
    then mapped direct logical
    else if ltb single per_block
    then (do block ← pointer_at direct 12; through_block r block single)
    else if ltb double (per_block * per_block % u32)
    then (do
      outer ← pointer_at direct 13
      inner ← through_block r outer (double / per_block)
      through_block r inner (double % per_block))
    else failed

unfoldable pub read_indirect_block : Ext4Reader → Bytes → ℕ → Result ℕ
unfolding map_block
read_indirect_block r node_inode logical =
    map_block r (field_bytes inode "i_block" node_inode) logical
