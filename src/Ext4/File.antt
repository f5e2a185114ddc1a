-- ===== src/Ext4/File.antt =====
-- `read_file_data`, `read_symlink_target` and `stat_inode` of src/fs/ext4_reader.cpp. `depth` is the
-- fuel of the extent tree, `fuel` that of the copy loop.
pub mod Contents
pub mod Ends
pub mod Reads
use linux2win.Base.{
  ℕ, zero, suc, ◌+◌, ◌-◌, ◌*◌, ◌/◌, ◌%◌, ◌^◌, min, Bool, not, ◌||◌, List, [], ◌++◌, Bytes, Result,
  ok, stuck, guard, or_else, ◌>>=◌, ◌>>◌, length, take, replicate, slice, ltb, leb, ◌==◌,
  if◌then◌else◌, u32, u64, bit_and, bit_or,
}
use linux2win.Ext4.Layout.{inode, field, field_bytes}
use linux2win.Ext4.Reader.{Ext4Reader, join32}
use linux2win.Ext4.Inode.{device_block, read_inode}
use linux2win.Ext4.Extent.{resolve_extent_block}
use linux2win.Ext4.Indirect.{read_indirect_block}

abbrev pub s_ifmt : ℕ
s_ifmt = 0xf000

abbrev pub s_iflnk : ℕ
s_iflnk = 0xa000

abbrev pub s_ifreg : ℕ
s_ifreg = 0x8000

abbrev pub s_ifdir : ℕ
s_ifdir = 0x4000

abbrev pub extents_fl : ℕ
extents_fl = 0x0008_0000

-- `i_mode & EXT4_S_IFMT`
abbrev pub file_type : Bytes → ℕ
file_type node = bit_and (field inode "i_mode" node) s_ifmt

-- The high half counts for regular files only.
unfoldable pub file_size : Bytes → ℕ
file_size node =
    let lo = field inode "i_size_lo" node in
    if file_type node == s_ifreg then join32 lo (field inode "i_size_high" node) else lo

abbrev pub uses_extents : Bytes → Bool
uses_extents node = not (bit_and (field inode "i_flags" node) extents_fl == 0)

unfoldable pub lookup_block : ℕ → Ext4Reader → Bytes → ℕ → Result ℕ
lookup_block depth r node logical =
    if uses_extents node
    then resolve_extent_block depth r node logical
    else read_indirect_block r node logical

-- One round of the loop copies `count` bytes of a block; without a block, zeros.
unfoldable pub block_chunk : ℕ → Ext4Reader → Bytes → ℕ → ℕ → ℕ → Result Bytes
block_chunk depth r node logical start count = do
  physical ← or_else (lookup_block depth r node logical) 0
  if physical == 0
      then ok (replicate count 0)
      else (do block ← device_block r physical; ok (slice start count block))

-- `std::min(static_cast<uint32_t>(remaining), block_size_ - block_offset)`
abbrev pub to_copy : ℕ → ℕ → ℕ → ℕ
to_copy block_size remaining offset = min (remaining % u32) (block_size - offset % block_size)

-- The copy loop; the result is what it writes from `dst` on.
unfoldable pub copy_loop : ℕ → ℕ → Ext4Reader → Bytes → ℕ → ℕ → Result Bytes
copy_loop zero depth r node remaining offset = stuck
copy_loop (suc fuel) depth r node remaining offset =
    let count = to_copy r.block_size remaining offset in
    let round = (do
      chunk ← block_chunk depth r node (offset / r.block_size % u32) (offset % r.block_size) count
      rest ← copy_loop fuel depth r node (remaining - count) ((offset + count) % u64)
      ok (chunk ++ rest)) in
    if remaining == 0 then ok [] else round

-- The request, cut at the end of the file.
unfoldable pub actual_size : ℕ → ℕ → ℕ → ℕ
actual_size size offset file_bytes =
    if ltb file_bytes ((offset + size) % u64) then file_bytes - offset else size

-- `*bytes_read` is the length of the result. No caller passes a null buffer.
unfoldable pub read_file_data : ℕ → ℕ → Ext4Reader → ℕ → ℕ → ℕ → Result Bytes
unfolding copy_loop actual_size file_size
read_file_data fuel depth r number offset size = do
  guard (not (not r.mounted || size == 0))
  node ← read_inode r number
  if leb (file_size node) offset
      then ok []
      else copy_loop fuel depth r node (actual_size size offset (file_size node)) offset

-- A target shorter than `i_block` stands in the inode itself.
unfoldable pub read_symlink_target : ℕ → ℕ → Ext4Reader → ℕ → Result Bytes
unfolding read_file_data
read_symlink_target fuel depth r number = do
  node ← read_inode r number
  let size = field inode "i_size_lo" node
  if size == 0
      then ok []
      else if ltb size 60
      then ok (take size (field_bytes inode "i_block" node))
      else read_file_data fuel depth r number 0 size

pub record FileStat : Type 0 where
  pub inode_num : ℕ
  pub size : ℕ
  pub mode : ℕ
  pub uid : ℕ
  pub gid : ℕ
  pub atime : ℕ
  pub mtime : ℕ
  pub ctime : ℕ
  pub crtime : ℕ
  pub is_directory : Bool
  pub is_regular : Bool
  pub is_symlink : Bool
  pub symlink_target : Bytes

-- `lo | (static_cast<uint32_t>(hi) << 16)`
abbrev join16 : ℕ → ℕ → ℕ
join16 lo hi = bit_or lo (hi * 2 ^ 16 % u32)

unfoldable pub stat_of : Ext4Reader → ℕ → Bytes → FileStat
unfolding file_size
stat_of r number node = record {
  inode_num = number;
  size = file_size node;
  mode = field inode "i_mode" node;
  uid = join16 (field inode "i_uid" node) (field inode "i_osd2_uid_high" node);
  gid = join16 (field inode "i_gid" node) (field inode "i_osd2_gid_high" node);
  atime = field inode "i_atime" node;
  mtime = field inode "i_mtime" node;
  ctime = field inode "i_ctime" node;
  crtime = if ltb 128 r.inode_size then field inode "i_crtime" node else field inode "i_mtime" node;
  is_directory = file_type node == s_ifdir;
  is_regular = file_type node == s_ifreg;
  is_symlink = file_type node == s_iflnk;
  symlink_target = [];
}

-- The answer of `read_symlink_target` is not looked at; it clears the target first. Where the inode is
-- not a link, the target stays as the caller passes it, which is empty in each call of the program.
unfoldable pub stat_inode : ℕ → ℕ → Ext4Reader → ℕ → Result FileStat
unfolding stat_of read_symlink_target
stat_inode fuel depth r number = do
  node ← read_inode r number
  let stat = stat_of r number node
  if stat.is_symlink
      then (do
        target ← or_else (read_symlink_target fuel depth r number) []
        ok (record stat { symlink_target = target }))
      else ok stat
