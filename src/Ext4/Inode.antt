-- ===== src/Ext4/Inode.antt =====
-- `get_group_descriptor_block`, `read_group_descriptor` and `read_inode` of src/fs/ext4_reader.cpp,
-- and the two reads of the device that they and the other operations make.
pub mod Placement
use linux2win.Base.{
  ℕ, ◌+◌, ◌-◌, ◌*◌, ◌/◌, ◌%◌, min, Bool, not, ◌&&◌, ◌||◌, none, some, ◌++◌, Bytes, Result, ok,
  failed, fault, guard, demand, from_option, ◌>>=◌, ◌>>◌, length, take, replicate, ltb, leb, ◌==◌,
  if◌then◌else◌, u64,
}
use linux2win.Ext4.Layout.{sizeof, group_desc32, group_desc64, inode, field}
use linux2win.Ext4.Reader.{Ext4Reader, sb_field, join32}

-- The device pointer is null in a reader that was never mounted.
unfoldable pub device_read : Ext4Reader → ℕ → ℕ → Result Bytes
device_read r offset size = elim r.device [
  | none ↦ fault
  | some d ↦ from_option (d.read offset size)
]

unfoldable pub device_block : Ext4Reader → ℕ → Result Bytes
device_block r index = elim r.device [
  | none ↦ fault
  | some d ↦ from_option (d.read_block index r.block_size)
]

-- The table of descriptors is behind the superblock: in block 2 of 1 KiB, else in block 1.
abbrev table_block : ℕ → ℕ
table_block block_size = if block_size == 1024 then 2 else 1

pub get_group_descriptor_block : Ext4Reader → ℕ → ℕ
get_group_descriptor_block r group =
    (table_block r.block_size + group * r.desc_size % u64 / r.block_size) % u64

unfoldable pub desc_offset : Ext4Reader → ℕ → ℕ
desc_offset r group = (table_block r.block_size * r.block_size + group * r.desc_size) % u64

-- A short descriptor is filled up with zeros.
unfoldable pub read_group_descriptor : Ext4Reader → ℕ → Result Bytes
unfolding device_read desc_offset
read_group_descriptor r group = do
  guard (not (not r.mounted || leb r.groups_count group))
  if r.is_64bit && leb (sizeof group_desc64) r.desc_size
      then device_read r (desc_offset r group) (sizeof group_desc64)
      else (do
        base ← device_read r (desc_offset r group) (sizeof group_desc32)
        ok (base ++ replicate (sizeof group_desc64 - sizeof group_desc32) 0))

unfoldable pub inode_table : Ext4Reader → Bytes → ℕ
inode_table r gd =
    let lo = field group_desc64 "bg_inode_table_lo" gd in
    if r.is_64bit then join32 lo (field group_desc64 "bg_inode_table_hi" gd) else lo

unfoldable pub inode_offset : Ext4Reader → ℕ → ℕ → ℕ
inode_offset r table index = (table * r.block_size % u64 + index * r.inode_size) % u64

-- The structure keeps the bytes that fit it; what the volume does not have is zero.
unfoldable pub copy_inode : Ext4Reader → Bytes → Bytes
copy_inode r buffer =
    let size = min (sizeof inode) r.inode_size in
    take size buffer ++ replicate (sizeof inode - size) 0

-- Inodes are numbered from 1. A volume with no inodes per group makes the division undefined.
unfoldable pub read_inode : Ext4Reader → ℕ → Result Bytes
unfolding read_group_descriptor inode_table inode_offset copy_inode
read_inode r number = do
  guard (not (not r.mounted || (number == 0 || ltb (sb_field "s_inodes_count" r.sb) number)))
  let per_group = sb_field "s_inodes_per_group" r.sb
  demand (not (per_group == 0))
  gd ← read_group_descriptor r ((number - 1) / per_group)
  buffer ← device_read r (inode_offset r (inode_table r gd) ((number - 1) % per_group)) r.inode_size
  ok (copy_inode r buffer)
