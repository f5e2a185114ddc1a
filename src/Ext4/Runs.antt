-- ===== src/Ext4/Runs.antt =====
-- A volume of 1 KiB blocks: superblock, descriptor in block 2, inodes from block 5 on. Inode 2 is a
-- directory in block 22, inode 12 a file with block 20 and a hole, inode 13 a file of 8 GiB of holes.
pub mod Files
mod Trees
use linux2win.Base.{
  none, ℕ, ◌+◌, ◌-◌, ◌*◌, ◌/◌, ◌%◌, zero, ◌==◌, take, length-take, length-append, length-replicate,
  ◌^◌, ◌≤◌, ◌≡◌, ◌↔◌, ◌≢◌, refl, true, false, Bool, Option, none, some, List, [], ◌∷◌, ◌++◌, arith,
  Bytes, Result, ok, fault, length, get_elem?, le_bytes, ltb, leb, if◌then◌else◌, u64, replicate,
  ◌/◌,
}
use linux2win.Device.Interface.{Device, IsExact}
use linux2win.Ext4.Layout.{superblock, inode, sizeof, field_bytes, field}
use linux2win.Ext4.Reader.{
  Ext4Reader, new_reader, sb_field, mount, superblock_magic, superblock_offset, block_size_of,
  inode_size_of, desc_size_of, groups_count_of, mount_groups, total_blocks,
}
use linux2win.Ext4.Reader.Mount.{IsValid, mount-flag, mount-IsValid, mount_accepts}
use linux2win.Ext4.Inode.{read_inode, inode_table}
use linux2win.Device.Window.{bytes_at}
use linux2win.Ext4.Inode.Placement.{read_inode-whole, read_inode-fault}

-- What is read from the places where a structure begins; all else is zero, up to the end of the
-- volume at 64 KiB, behind which nothing is read.
abbrev pub Image : Type 0
Image = List (ℕ × Bytes)

abbrev pub stored : ℕ → Image → Bytes
stored p [] = []
stored p ((start, bytes) ∷ rest) = let later = stored p rest in if start == p then bytes else later

abbrev pub padded : ℕ → Bytes → Bytes
padded size bytes = take size (bytes ++ replicate size 0)

length-padded : (size : ℕ) (bytes : Bytes) → length (padded size bytes) ≡ size
length-padded size bytes = omega (
  arith,
  length-take size (bytes ++ replicate size 0),
  length-append bytes (replicate size 0),
  length-replicate size zero,
)

abbrev superblock_bytes : ℕ → Bytes
superblock_bytes per_group =
    padded 32 (le_bytes 4 16 ++ le_bytes 4 64)
    ++ (padded 8 (le_bytes 4 8192)
        ++ (padded 16 (le_bytes 4 per_group)
            ++ (padded 20 (le_bytes 2 superblock_magic)
                ++ (padded 12 (le_bytes 4 1) ++ (padded 8 (le_bytes 2 128) ++ le_bytes 4 0x42)))))

-- Mode, size and flags of an inode, and the first bytes of its `i_block`.
abbrev pub inode_bytes : ℕ → ℕ → Bytes → Bytes
inode_bytes mode size blocks =
    padded 4 (le_bytes 2 mode)
    ++ (padded 36 (le_bytes 4 size) ++ (padded 68 blocks ++ le_bytes 4 (size / 2 ^ 32)))

abbrev pub dir_entry : ℕ → ℕ → ℕ → Bytes → Bytes
dir_entry number rec_len type name =
    padded rec_len (le_bytes 4 number ++ (le_bytes 2 rec_len ++ (length name ∷ type ∷ name)))

abbrev pub image : ℕ → Image
image per_group =
    (1024, superblock_bytes per_group)
    ∷ (2048, padded 8 [] ++ le_bytes 4 5)
    ∷ (5120 + 128, inode_bytes 0x41ed 1024 (le_bytes 4 22))
    ∷ (5120 + 11 * 128, inode_bytes 0x81a4 1500 (le_bytes 4 20))
    ∷ (5120 + 12 * 128, inode_bytes 0x81a4 (2 ^ 33) [])
    ∷ (20 * 1024, padded 1022 [] ++ (7 ∷ 9 ∷ []))
    ∷ (22 * 1024, dir_entry 2 12 2 (b'.' ∷ []) ++ dir_entry 12 1012 1 (b'a' ∷ []))
    ∷ []

abbrev pub device_on : Image → Device
device_on disk = record {
  opened = true;
  read = λ offset size.
      if leb (offset + size) 65536 then some (padded size (stored offset disk)) else none;
  read_block = λ index size.
      if leb (index * size + size) 65536
      then some (padded size (stored (index * size % u64) disk))
      else none;
}

pub device_on-IsExact : (disk : Image) → IsExact (device_on disk)
device_on-IsExact disk = record {
  read_fills = λ offset size {out} h e. ground (arith, length-padded size (stored offset disk));
  block_fills =
      λ index size {out} h e. ground (arith, length-padded size (stored (index * size % u64) disk));
}

abbrev pub volume : ℕ → Device
volume per_group = device_on (image per_group)

abbrev pub superblock_of : ℕ → Bytes
superblock_of per_group = padded 1024 (superblock_bytes per_group)

-- The reader that `mount` gives on a volume.
abbrev pub reader_of : ℕ → Device → Ext4Reader
reader_of per_group device = record {
  device = some device;
  sb = superblock_of per_group;
  block_size = 1024;
  inode_size = 128;
  groups_count = 1;
  desc_size = 32;
  is_64bit = false;
  has_extents = true;
  mounted = true;
}

abbrev pub reader : Ext4Reader
reader = reader_of 16 (volume 16)

mounts : mount new_reader (some (volume 16)) ≡ ok (reader, true)
unfolding mount field inode_size_of groups_count_of desc_size_of
mounts = refl

mount-IsValid_example :
    IsValid reader
    × ((d : Device) × (some (volume 16) ≡ some d)
        × (d.opened ≡ true)
        × (reader.device ≡ some d)
        × (d.read superblock_offset (sizeof superblock) ≡ some reader.sb))
mount-IsValid_example = mount-IsValid new_reader (some (volume 16)) reader mounts

pub reader-IsValid : IsValid reader
reader-IsValid = (mount-IsValid new_reader (some (volume 16)) reader mounts).0

sb_read : (volume 16).read superblock_offset (sizeof superblock) ≡ some (superblock_of 16)
unfolding sizeof
sb_read = refl

sb_fields :
    (sb_field "s_magic" (superblock_of 16) ≡ superblock_magic)
    × (sb_field "s_log_block_size" (superblock_of 16) ≤ 6)
    × (sb_field "s_blocks_per_group" (superblock_of 16) ≢ 0)
unfolding field
sb_fields = (refl, ground arith, λ e. ground arith)

mount_accepts_example : (s : Ext4Reader) × (mount new_reader (some (volume 16)) ≡ ok (s, true))
mount_accepts_example =
    mount_accepts new_reader (volume 16) (superblock_of 16) refl sb_read sb_fields.0 sb_fields.1
      sb_fields.2

-- The structure of inode `n` in memory.
abbrev pub node_of : ℕ → Bytes
node_of n = padded 128 (stored (5120 + (n - 1) * 128) (image 16)) ++ replicate 32 0

pub reads_12 : read_inode reader 12 ≡ ok (node_of 12)
unfolding read_inode field sizeof
reads_12 = refl

-- A disk whose byte at `p` is `p % 7`, with the superblock of the volume in memory.
abbrev seven : ℕ → ℕ
seven p = p % 7

abbrev sevens : Device
sevens = record {
  opened = true;
  read = λ offset size. some (bytes_at seven offset size);
  read_block = λ index size. some (bytes_at seven (index * size % u64) size);
}

abbrev on_sevens : Ext4Reader
on_sevens = reader_of 16 sevens

abbrev seven_gd : Bytes
seven_gd = bytes_at seven 2048 32 ++ replicate 32 0

abbrev seven_place : ℕ
seven_place = inode_table on_sevens seven_gd * 1024 + 2 * 128

abbrev seven_node : Bytes
seven_node = bytes_at seven (0x0100_0605 * 1024 + 2 * 128) 128 ++ replicate 32 0

-- A volume that says 0 inodes per group.
broken_fields :
    (sb_field "s_magic" (superblock_of 0) ≡ superblock_magic)
    × (sb_field "s_log_block_size" (superblock_of 0) ≤ 6)
    × (sb_field "s_blocks_per_group" (superblock_of 0) ≢ 0)
    × (2 ≤ sb_field "s_inodes_count" (superblock_of 0))
unfolding field
broken_fields = (refl, ground arith, (λ e. ground arith), ground arith)

broken_read : (volume 0).read superblock_offset (sizeof superblock) ≡ some (superblock_of 0)
unfolding sizeof
broken_read = refl

read_inode-fault_example :
    (s : Ext4Reader) × (mount new_reader (some (volume 0)) ≡ ok (s, true))
    × ((read_inode s 2 ≡ fault) ↔ (sb_field "s_inodes_per_group" (superblock_of 0) ≡ 0))
read_inode-fault_example =
    let (magic, small, groups, count) = broken_fields in
    read_inode-fault new_reader (volume 0) (superblock_of 0) 2 refl broken_read magic small groups
      (λ e. cc) count
