-- ===== src/Ext4/Inode/Placement.antt =====
-- Where `read_inode` reads, what it returns, and when its division is undefined.
use linux2win.Base.{
  ℕ, ◌-◌, ◌/◌, ◌%◌, ◌≤◌, min, ◌≡◌, ◌≢◌, ◌↔◌, true, not, ◌||◌, some, arith, Bytes, ok, fault,
  >>=-eq-ok, guard, demand, length, take, replicate, ltb, ◌==◌, length-append, length-take, ap, ◌∙◌,
  sym, subst, some-inj, length-drop, length-replicate, drop,
}
use linux2win.Device.Interface.{Device, IsExact, size_limit}
use linux2win.Device.Window.{bytes_at}
use linux2win.Ext4.Layout.{superblock, inode, sizeof, field_bytes}
use linux2win.Ext4.Reader.{Ext4Reader, sb_field, mount, superblock_magic, superblock_offset}
use linux2win.Ext4.Reader.Mount.{
  IsValid, block_size_bounds, mount_accepts, mount-IsValid, mount-flag,
}
use linux2win.Ext4.Inode.{
  device_read, read_group_descriptor, inode_table, inode_offset, copy_inode, read_inode,
}

abbrev per_group : Ext4Reader → ℕ
per_group r = sb_field "s_inodes_per_group" r.sb

-- What a successful read of the device gives is bytes of the disk.
abbrev pub GivesDisk : Device → (ℕ → ℕ) → Type 0
GivesDisk d disk =
    (position n : ℕ) (out : Bytes) → d.read position n ≡ some out → out ≡ bytes_at disk position n

copy-length :
    (r : Ext4Reader) (buffer : Bytes)
    → length buffer ≡ r.inode_size
    → length (copy_inode r buffer) ≡ sizeof inode
unfolding copy_inode
copy-length r buffer h =
    let size = min (sizeof inode) r.inode_size in
    omega (
      arith,
      length-append (take size buffer) (replicate (sizeof inode - size) 0),
      length-take size buffer,
      length-replicate {A = ℕ} (sizeof inode - size) 0,
    )

block_field : (node : Bytes) → length node ≡ 160 → length (field_bytes inode "i_block" node) ≡ 60
unfolding field_bytes
block_field node h = omega (arith, length-take 60 (drop 40 node), length-drop 40 node)

-- What a successful call has gone through.
read_inode_inversion :
    (r : Ext4Reader) (d : Device) (number : ℕ) (node : Bytes)
    → r.device ≡ some d
    → read_inode r number ≡ ok node
    → (gd : Bytes) × (buffer : Bytes) × (read_group_descriptor r ((number - 1) / per_group r)
        ≡ ok gd)
      × (d.read (inode_offset r (inode_table r gd) ((number - 1) % per_group r)) r.inode_size
          ≡ some buffer)
      × (node ≡ copy_inode r buffer)
unfolding read_inode device_read
read_inode_inversion r d number node hd e =
    let (_, _, e1) =
      >>=-eq-ok
        (guard
          (not (not r.mounted || (number == 0 || ltb (sb_field "s_inodes_count" r.sb) number))))
        _ e in
    let (_, _, e2) = >>=-eq-ok (demand (not (per_group r == 0))) _ e1 in
    let (gd, described, e3) =
      >>=-eq-ok (read_group_descriptor r ((number - 1) / per_group r)) _ e2 in
    let place = inode_offset r (inode_table r gd) ((number - 1) % per_group r) in
    let (buffer, read, e4) = >>=-eq-ok (device_read r place r.inode_size) _ e3 in
    (gd, buffer, described, ground arith, ground arith)

-- The structure that a successful call returns is whole: 160 bytes, with the 60 of `i_block`.
pub read_inode-whole :
    (r : Ext4Reader) (d : Device) (number : ℕ) (node : Bytes)
    → IsValid r
    → r.device ≡ some d
    → IsExact d
    → read_inode r number ≡ ok node
    → (length node ≡ 160) × (length (field_bytes inode "i_block" node) ≡ 60)
unfolding sizeof
read_inode-whole r d number node valid hd exact e =
    let (gd, buffer, _, got, eq) = read_inode_inversion r d number node hd e in
    let place = inode_offset r (inode_table r gd) ((number - 1) % per_group r) in
    let small : r.inode_size ≤ size_limit =
      omega (arith, valid.inode_fits, block_size_bounds valid) in
    let full = exact.read_fills place r.inode_size small got in
    let whole : length node ≡ 160 = ground (arith, copy-length r buffer full) in
    (whole, block_field node whole)

fault_exactly :
    (r : Ext4Reader) (d : Device) (number : ℕ)
    → r.mounted ≡ true
    → r.device ≡ some d
    → number ≢ 0
    → number ≤ sb_field "s_inodes_count" r.sb
    → (read_inode r number ≡ fault) ↔ (per_group r ≡ 0)
unfolding read_inode read_group_descriptor device_read
fault_exactly r d number mounted hd positive below = (ground arith, ground arith)

-- On an open device, a volume whose superblock can be read and has the magic number, a block size
-- up to 64 KiB and a group size is mounted, whatever its inodes per group; on the reader that this
-- gives, reading an inode whose number is from 1 to the count of the superblock is undefined
-- behaviour exactly if the superblock has zero inodes per group.
pub read_inode-fault :
    (r : Ext4Reader) (d : Device) (sb : Bytes) (number : ℕ)
    → d.opened ≡ true
    → d.read superblock_offset (sizeof superblock) ≡ some sb
    → sb_field "s_magic" sb ≡ superblock_magic
    → sb_field "s_log_block_size" sb ≤ 6
    → sb_field "s_blocks_per_group" sb ≢ 0
    → number ≢ 0
    → number ≤ sb_field "s_inodes_count" sb
    → (s : Ext4Reader) × (mount r (some d) ≡ ok (s, true))
      × ((read_inode s number ≡ fault) ↔ (sb_field "s_inodes_per_group" sb ≡ 0))
read_inode-fault r d sb number opened got magic small groups positive below =
    let (s, mounted) = mount_accepts r d sb opened got magic small groups in
    let (_, (d', same_d, _, has, read)) = mount-IsValid r (some d) s mounted in
    let it : d' ≡ d = cc same_d in
    let same_sb : s.sb ≡ sb =
      some-inj (sym read ∙ ap (λ x. x.read superblock_offset (sizeof superblock)) it ∙ got) in
    (
      s,
      mounted,
      subst (λ b. (read_inode s number ≡ fault) ↔ (sb_field "s_inodes_per_group" b ≡ 0)) same_sb
          (fault_exactly s d' number (mount-flag r (some d) s true mounted) has positive
            (subst (λ b. number ≤ sb_field "s_inodes_count" b) (sym same_sb) below)),
    )
