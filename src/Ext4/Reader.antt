-- ===== src/Ext4/Reader.antt =====
-- The state of `Ext4Reader`: `mount`, `unmount` and the volume's name, UUID and size.
pub mod Mount
use linux2win.Base.{
  ℕ, ◌+◌, ◌-◌, ◌*◌, ◌/◌, ◌%◌, ◌^◌, Bool, true, false, not, ◌||◌, Option, none, some, List, [], ◌∷◌,
  ◌++◌, String, Bytes, Result, ok, fault, replicate, ltb, leb, ◌==◌, if◌then◌else◌, u16, u32, u64,
  bit_and, bit_or,
}
use linux2win.Device.Interface.{Device}
use linux2win.Ext4.Layout.{superblock, sizeof, field, field_bytes}

abbrev pub superblock_magic : ℕ
superblock_magic = 0xef53

abbrev pub superblock_offset : ℕ
superblock_offset = 1024

abbrev pub feature_incompat_extents : ℕ
feature_incompat_extents = 0x0040

abbrev pub feature_incompat_64bit : ℕ
feature_incompat_64bit = 0x0080

-- `device` is `none` for the null pointer; `sb` is the memory of the superblock.
pub record Ext4Reader : Type 0 where
  pub device : Option Device
  pub sb : Bytes
  pub block_size : ℕ
  pub inode_size : ℕ
  pub groups_count : ℕ
  pub desc_size : ℕ
  pub is_64bit : Bool
  pub has_extents : Bool
  pub mounted : Bool

unfoldable pub no_superblock : Bytes
unfolding sizeof
no_superblock = replicate (sizeof superblock) 0

pub new_reader : Ext4Reader
new_reader = record {
  device = none;
  sb = no_superblock;
  block_size = 4096;
  inode_size = 256;
  groups_count = 0;
  desc_size = 32;
  is_64bit = false;
  has_extents = false;
  mounted = false;
}

abbrev pub sb_field : String → Bytes → ℕ
sb_field name sb = field superblock name sb

-- `lo | (static_cast<uint64_t>(hi) << 32)`
unfoldable pub join32 : ℕ → ℕ → ℕ
join32 lo hi = bit_or lo (hi * u32 % u64)

unfoldable pub unmount : Ext4Reader → Ext4Reader
unmount r = record r { device = none; sb = no_superblock; mounted = false }

unfoldable pub total_blocks : Bool → Bytes → ℕ
total_blocks is_64bit sb =
    let lo = sb_field "s_blocks_count_lo" sb in
    if is_64bit then join32 lo (sb_field "s_blocks_count_hi" sb) else lo

abbrev pub has_feature : ℕ → Bytes → Bool
has_feature mask sb = not (bit_and (sb_field "s_feature_incompat" sb) mask == 0)

-- `1024 << s_log_block_size`, for a shift below 32.
unfoldable pub block_size_of : Bytes → ℕ
block_size_of sb = 1024 * 2 ^ sb_field "s_log_block_size" sb % u32

unfoldable pub inode_size_of : Bytes → ℕ → ℕ
inode_size_of sb block_size =
    let size = if leb 1 (sb_field "s_rev_level" sb) then sb_field "s_inode_size" sb else 128 in
    if size == 0 || ltb block_size size then 128 else size

unfoldable pub desc_size_of : Bytes → ℕ
desc_size_of sb =
    let size = sb_field "s_desc_size" sb in
    if has_feature feature_incompat_64bit sb then if size == 0 then 64 else size else 32

-- `groups_count_` is rounded up in 64 bits and cut to 32.
unfoldable pub groups_count_of : Bytes → ℕ → ℕ
unfolding total_blocks
groups_count_of sb per_group =
    let total = total_blocks (has_feature feature_incompat_64bit sb) sb in
    (total + per_group - 1) % u64 / per_group % u32

-- The rest of `mount`, once the block size is set.
unfoldable pub mount_groups : Ext4Reader → Ext4Reader × Bool
mount_groups r =
    let per_group = sb_field "s_blocks_per_group" r.sb in
    let sized : Ext4Reader = record r {
      inode_size = inode_size_of r.sb r.block_size;
      desc_size = desc_size_of r.sb;
      is_64bit = has_feature feature_incompat_64bit r.sb;
      has_extents = has_feature feature_incompat_extents r.sb;
    } in
    if per_group == 0
    then (sized, false)
    else (record sized { groups_count = groups_count_of r.sb per_group; mounted = true }, true)

-- From the superblock on. A shift by 32 or more is undefined.
unfoldable pub mount_superblock : Ext4Reader → Result (Ext4Reader × Bool)
unfolding mount_groups block_size_of
mount_superblock r =
    let size = block_size_of r.sb in
    let sized : Ext4Reader = record r { block_size = size } in
    if not (sb_field "s_magic" r.sb == superblock_magic)
    then ok (r, false)
    else if leb 32 (sb_field "s_log_block_size" r.sb)
    then fault
    else if ltb size 1024 || ltb 65536 size
    then ok (sized, false)
    else ok (mount_groups sized)

mount_device : Ext4Reader → Device → Result (Ext4Reader × Bool)
unfolding mount_superblock sizeof
mount_device r d =
    let held : Ext4Reader = record r { device = some d } in
    elim (d.read superblock_offset (sizeof superblock)) [
      | none ↦ ok (held, false)
      | some sb ↦ mount_superblock (record held { sb = sb })
    ]

-- The pair is the new state and what `mount` returns.
unfoldable pub mount : Ext4Reader → Option Device → Result (Ext4Reader × Bool)
unfolding mount_device unmount
mount r device = elim device [
  | none ↦ ok (unmount r, false)
  | some d ↦ if d.opened then mount_device (unmount r) d else ok (unmount r, false)
]

-- A `char` array of 16 as a C string, with a zero behind it.
unfoldable pub c_string : Bytes → Bytes
c_string [] = []
c_string (c ∷ cs) = let rest = c_string cs in if c == 0 then [] else c ∷ rest

unfoldable pub volume_name : Ext4Reader → Bytes
unfolding c_string
volume_name r = c_string (field_bytes superblock "s_volume_name" r.sb)

-- `std::hex` in lower case.
abbrev pub hex_digit : ℕ → ℕ
hex_digit n = if ltb n 10 then b'0' + n else b'a' + (n - 10)

abbrev pub hex_byte : ℕ → Bytes
hex_byte b = hex_digit (b / 16) ∷ hex_digit (b % 16) ∷ []

unfoldable pub uuid_text : ℕ → Bytes → Bytes
uuid_text i [] = []
uuid_text i (b ∷ bs) =
    let rest = hex_byte b ++ uuid_text (i + 1) bs in
    if i == 4 || i == 6 || i == 8 || i == 10 then b'-' ∷ rest else rest

unfoldable pub volume_uuid : Ext4Reader → Bytes
unfolding uuid_text
volume_uuid r = uuid_text 0 (field_bytes superblock "s_uuid" r.sb)
