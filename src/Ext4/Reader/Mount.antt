-- ===== src/Ext4/Reader/Mount.antt =====
-- What `mount` leaves behind: the facts about a mounted reader that the other operations rest on.
use linux2win.Base.{
  Returns, ℕ, ◌*◌, ◌%◌, ◌^◌, ◌≤◌, ◌<◌, ◌≡◌, refl, ◌≢◌, Bool, true, false, ◌||◌, Option, none, some,
  arith, Bytes, ok, ltb, leb, ◌==◌, u32, Option-cases, Bool-cases, ◌⊎◌, inl, inr, ◌∙◌, sym, ap,
  ◌&&◌,
}
use linux2win.Base.Tables.{holds_below, holds_below_sound}
use linux2win.Device.Interface.{Device}
use linux2win.Ext4.Layout.{superblock, sizeof}
use linux2win.Ext4.Reader.{
  Ext4Reader, mount, mount_device, mount_superblock, mount_groups, unmount, block_size_of,
  inode_size_of, desc_size_of, sb_field, superblock_magic, superblock_offset,
}

-- A block is 1, 2, 4, … or 64 KiB; an inode is not empty and fits a block.
pub record IsValid (r : Ext4Reader) : Type 0 where
  pub block_shift : ℕ
  pub shift_small : block_shift ≤ 6
  pub block_size_eq : r.block_size ≡ 1024 * 2 ^ block_shift
  pub inode_pos : 0 < r.inode_size
  pub inode_fits : r.inode_size ≤ r.block_size
  pub desc_pos : 0 < r.desc_size
  pub magic : sb_field "s_magic" r.sb ≡ superblock_magic
  pub groups : sb_field "s_blocks_per_group" r.sb ≢ 0

abbrev size_test : ℕ → Bool
size_test n = let size = 1024 * 2 ^ n % u32 in ltb size 1024 || (ltb 65536 size || leb n 6)

size_table : holds_below size_test 32 ≡ true
unfolding holds_below
size_table = refl

shift_bound :
    (n : ℕ)
    → leb 32 n ≡ false
    → (ltb (1024 * 2 ^ n % u32) 1024 || ltb 65536 (1024 * 2 ^ n % u32)) ≡ false
    → n ≤ 6
shift_bound n h size = ground (arith, holds_below_sound size_test 32 size_table n (ground arith))

abbrev power_test : ℕ → Bool
power_test n = (1024 * 2 ^ n % u32) == 1024 * 2 ^ n

power_table : holds_below power_test 7 ≡ true
unfolding holds_below
power_table = refl

no_wrap : (n : ℕ) → n ≤ 6 → 1024 * 2 ^ n % u32 ≡ 1024 * 2 ^ n
no_wrap n h = ground (arith, holds_below_sound power_test 7 power_table n (omega arith))

abbrev range_test : ℕ → Bool
range_test n = leb 1024 (1024 * 2 ^ n) && leb (1024 * 2 ^ n) 65536

range_table : holds_below range_test 7 ≡ true
unfolding holds_below
range_table = refl

size_range : (n : ℕ) → n ≤ 6 → (1024 ≤ 1024 * 2 ^ n) × (1024 * 2 ^ n ≤ 65536)
size_range n h = ground (arith, holds_below_sound range_test 7 range_table n (omega arith))

pub block_size_bounds :
    {r : Ext4Reader} → IsValid r → (1024 ≤ r.block_size) × (r.block_size ≤ 65536)
block_size_bounds v = ground (arith, size_range v.block_shift v.shift_small)

inode_size_bounds :
    (sb : Bytes) (size : ℕ)
    → 128 ≤ size
    → (0 < inode_size_of sb size) × (inode_size_of sb size ≤ size)
unfolding inode_size_of
inode_size_bounds sb size h = ground arith

desc_size_pos : (sb : Bytes) → 0 < desc_size_of sb
unfolding desc_size_of
desc_size_pos sb = ground arith

-- The steps of `mount` keep the mounted flag equal to what they return.
mount_superblock-flag :
    (r s : Ext4Reader) (b : Bool)
    → r.mounted ≡ false
    → mount_superblock r ≡ ok (s, b)
    → (s.mounted ≡ b) × (s.device ≡ r.device) × (s.sb ≡ r.sb)
unfolding mount_superblock
mount_superblock-flag r s b hm e = ground arith

mount_superblock-IsValid :
    (r s : Ext4Reader) → mount_superblock r ≡ ok (s, true) → r.mounted ≡ false → IsValid s
unfolding mount_superblock
mount_superblock-IsValid r s e hm = record {
  block_shift = log;
  shift_small = small;
  block_size_eq = ground (arith, no_wrap log small);
  inode_pos = ground (arith, inode_bounds);
  inode_fits = ground (arith, inode_bounds);
  desc_pos = ground (arith, desc_size_pos r.sb);
  magic = ground arith;
  groups = ground arith;
}
  where
    log : ℕ
    log = sb_field "s_log_block_size" r.sb

    small : log ≤ 6
    small = shift_bound log (ground arith) (ground arith)

    size : ℕ
    size = block_size_of r.sb

    inode_bounds : (0 < inode_size_of r.sb size) × (inode_size_of r.sb size ≤ size)
    inode_bounds = inode_size_bounds r.sb size (ground arith)

mount_device_cases :
    (r : Ext4Reader) (d : Device) (s : Ext4Reader) (b : Bool)
    → r.mounted ≡ false
    → mount_device r d ≡ ok (s, b)
    → ((b ≡ false) × (s.mounted ≡ false))
      ⊎ ((sb : Bytes) × (d.read superblock_offset (sizeof superblock) ≡ some sb)
          × (mount_superblock (record r { device = some d; sb = sb }) ≡ ok (s, b)))
unfolding mount_device
mount_device_cases r d s b hm e =
    elim (Option-cases (d.read superblock_offset (sizeof superblock))) [
      | inl p ↦ inl (ground arith, ground arith)
      | inr (sb, p) ↦ inr (sb, p, ground arith)
    ]

-- Whatever the state before, the device and the superblock: afterwards the reader is mounted
-- exactly if `mount` returned true.
pub mount-flag :
    (r : Ext4Reader) (device : Option Device) (s : Ext4Reader) (b : Bool)
    → mount r device ≡ ok (s, b)
    → s.mounted ≡ b
unfolding mount
mount-flag r none s b e = ground arith
mount-flag r (some d) s b e = elim (Bool-cases d.opened) [
  | inl p ↦ elim (mount_device_cases (unmount r) d s b refl (ground arith)) [
    | inl (q, m) ↦ m ∙ sym q
    | inr (sb, _, q) ↦
        (mount_superblock-flag (record (unmount r) { device = some d; sb = sb }) s b refl q).0
  ]
  | inr p ↦ ground arith
]

-- A `mount` that returns true was given an open device, and keeps it; it read the superblock from
-- it, whose magic number and group size it tested; the block size is 1024 times a power of two up
-- to 64 KiB, an inode is not empty and not larger than a block.
pub mount-IsValid :
    (r : Ext4Reader) (device : Option Device) (s : Ext4Reader)
    → mount r device ≡ ok (s, true)
    → IsValid s
      × ((d : Device) × (device ≡ some d)
          × (d.opened ≡ true)
          × (s.device ≡ some d)
          × (d.read superblock_offset (sizeof superblock) ≡ some s.sb))
unfolding mount
mount-IsValid r none s e = ground arith
mount-IsValid r (some d) s e = elim (Bool-cases d.opened) [
  | inl p ↦ elim (mount_device_cases (unmount r) d s true refl (ground arith)) [
    | inl (q, m) ↦ cc
    | inr (sb, got, q) ↦
        let start : Ext4Reader = record (unmount r) { device = some d; sb = sb } in
        let (_, same_device, same_sb) = mount_superblock-flag start s true refl q in
        (
          mount_superblock-IsValid start s q refl,
          (d, refl, p, same_device, got ∙ ap some (sym same_sb)),
        )
  ]
  | inr p ↦ ground arith
]

-- An open device whose superblock has the magic number, a block size up to 64 KiB and a group size
-- is mounted; nothing else of the superblock or of the reader's earlier state can prevent it.
pub mount_accepts :
    (r : Ext4Reader) (d : Device) (sb : Bytes)
    → d.opened ≡ true
    → d.read superblock_offset (sizeof superblock) ≡ some sb
    → sb_field "s_magic" sb ≡ superblock_magic
    → sb_field "s_log_block_size" sb ≤ 6
    → sb_field "s_blocks_per_group" sb ≢ 0
    → (s : Ext4Reader) × (mount r (some d) ≡ ok (s, true))
unfolding mount mount_device mount_superblock
mount_accepts r d sb opened got magic small groups =
    let start : Ext4Reader = record (unmount r) {
      device = some d;
      sb = sb;
      block_size = block_size_of sb;
    } in
    (
      (mount_groups start).0,
      ground (
        arith,
        no_wrap (sb_field "s_log_block_size" sb) small,
        size_range (sb_field "s_log_block_size" sb) small,
      ),
    )

-- `mount` always comes back.
pub mount-Returns : (r : Ext4Reader) (device : Option Device) → Returns (mount r device)
unfolding mount
mount-Returns r device = ((λ e. ground arith), λ e. ground arith)
