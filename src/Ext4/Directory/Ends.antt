-- ===== src/Ext4/Directory/Ends.antt =====
-- `list_directory` ends on every content: the length of an entry that is followed is not 0.
use linux2win.Base.{
  ℕ, zero, suc, ◌+◌, ◌-◌, ◌<◌, ◌≡◌, ◌≢◌, true, false, ◌++◌, arith, Bytes, ok, stuck, guard, demand,
  length, slice, leb, ◌==◌, Bool-cases, inl, inr, bind-ne-stuck, replicate, Bool,
}
use linux2win.Ext4.Layout.{inode, dir_entry2, field, load_field-ne-stuck}
use linux2win.Ext4.Reader.{Ext4Reader}
use linux2win.Ext4.Inode.{device_read, read_group_descriptor, read_inode}
use linux2win.Ext4.File.{read_file_data, file_type, s_ifdir}
use linux2win.Ext4.Directory.{
  DirEntryInfo, typed, info_of, is_dot, named_entry, entry_here, parse_entries, list_directory,
}

device_read-ne-stuck : (r : Ext4Reader) (offset size : ℕ) → device_read r offset size ≢ stuck
unfolding device_read
device_read-ne-stuck r offset size e = ground arith

desc-ne-stuck : (r : Ext4Reader) (group : ℕ) → read_group_descriptor r group ≢ stuck
unfolding read_group_descriptor
desc-ne-stuck r group e = ground arith

pub read_inode-ne-stuck : (r : Ext4Reader) (number : ℕ) → read_inode r number ≢ stuck
unfolding read_inode
read_inode-ne-stuck r number e = ground arith

typed-ne-stuck : (r : Ext4Reader) (info : DirEntryInfo) → typed r info ≢ stuck
unfolding typed
typed-ne-stuck r info e = ground (arith, read_inode-ne-stuck r info.inode)

demand-ne-stuck : (b : Bool) → demand b ≢ stuck
demand-ne-stuck true e = cc
demand-ne-stuck false e = cc

guard-ne-stuck : (b : Bool) → guard b ≢ stuck
guard-ne-stuck true e = cc
guard-ne-stuck false e = cc

named_entry-ne-stuck :
    (r : Ext4Reader) (content : Bytes) (at number name_len : ℕ)
    → named_entry r content at number name_len ≢ stuck
unfolding named_entry
named_entry-ne-stuck r content at number name_len =
    bind-ne-stuck (demand (leb (at + 8 + name_len) (length content))) _ (demand-ne-stuck _) λ _ _.
      bind-ne-stuck _ _ (load_field-ne-stuck dir_entry2 "file_type" content at) λ type _.
        let name = slice (at + 8) name_len content in
        elim (Bool-cases (is_dot name)) [
          | inl dots ↦ rw dots (λ e. cc)
          | inr real ↦ rw real (
              bind-ne-stuck (typed r (info_of number name type)) _
                (typed-ne-stuck r (info_of number name type)) λ _ _ e. cc)
        ]

entry_here-ne-stuck : (r : Ext4Reader) (content : Bytes) (at : ℕ) → entry_here r content at ≢ stuck
unfolding entry_here
entry_here-ne-stuck r content at =
    bind-ne-stuck _ _ (load_field-ne-stuck dir_entry2 "inode" content at) λ number _.
      bind-ne-stuck _ _ (load_field-ne-stuck dir_entry2 "name_len" content at)
        λ name_len _ e. ground (arith, named_entry-ne-stuck r content at number name_len)

parse_entries-ends :
    (fuel : ℕ) (r : Ext4Reader) (content : Bytes) (limit at : ℕ)
    → 0 < fuel
    → limit < fuel + at
    → parse_entries fuel r content limit at ≢ stuck
unfolding parse_entries
parse_entries-ends zero r content limit at pos h = absurd (omega arith)
parse_entries-ends (suc fuel) r content limit at pos h = elim (Bool-cases (leb (at + 8) limit)) [
  | inl room ↦ rw room (
      bind-ne-stuck _ _ (load_field-ne-stuck dir_entry2 "rec_len" content at) λ rec_len _.
        elim (Bool-cases (rec_len == 0)) [
          | inl corrupt ↦ λ e. ground arith
          | inr good ↦ rw good (
              bind-ne-stuck _ _ (entry_here-ne-stuck r content at) λ here _.
                bind-ne-stuck _ _
                  (parse_entries-ends fuel r content limit (at + rec_len) (ground arith)
                    (ground arith))
                  λ later _ e. cc)
        ])
  | inr full ↦ λ e. ground arith
]

-- Whatever a directory holds, the loop over its entries ends: a listing can be stuck only where
-- reading the directory's content is.
pub list_directory-ends :
    (fuel depth : ℕ) (r : Ext4Reader) (number : ℕ)
    → ((node : Bytes)
        → read_inode r number ≡ ok node
        → read_file_data fuel depth r number 0 (field inode "i_size_lo" node) ≢ stuck)
    → list_directory fuel depth r number ≢ stuck
unfolding list_directory
list_directory-ends fuel depth r number reads =
    bind-ne-stuck (guard r.mounted) _ (guard-ne-stuck r.mounted) λ _ _.
      bind-ne-stuck _ _ (read_inode-ne-stuck r number) λ node found.
        bind-ne-stuck _ _ (guard-ne-stuck (file_type node == s_ifdir)) λ _ _.
          let size = field inode "i_size_lo" node in
          elim (Bool-cases (size == 0)) [
            | inl empty ↦ λ e. ground arith
            | inr more ↦ rw more (
                bind-ne-stuck _ _ (reads node found) λ bytes _.
                  parse_entries-ends (length bytes + 1) r
                    (bytes ++ replicate (size - length bytes) 0) (length bytes) 0 (omega arith)
                    (omega arith))
          ]
