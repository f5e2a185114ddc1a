-- ===== src/Ext4/Directory.antt =====
-- `list_directory` of src/fs/ext4_reader.cpp.
pub mod Ends
pub mod Listing
use linux2win.Base.{
  ℕ, zero, suc, ◌+◌, ◌-◌, Bool, not, ◌&&◌, ◌||◌, List, [], ◌∷◌, ◌++◌, Bytes, Result, ok, failed,
  fault, stuck, guard, demand, ◌>>=◌, ◌>>◌, length, replicate, slice, same, codes, ltb, leb, ◌==◌,
  if◌then◌else◌,
}
use linux2win.Ext4.Layout.{inode, dir_entry2, field, load_field}
use linux2win.Ext4.Reader.{Ext4Reader}
use linux2win.Ext4.Inode.{read_inode}
use linux2win.Ext4.File.{read_file_data, file_type, s_ifdir, s_iflnk}

pub record DirEntryInfo : Type 0 where
  pub inode : ℕ
  pub name : Bytes
  pub file_type : ℕ
  pub is_directory : Bool
  pub is_symlink : Bool

abbrev pub is_dot : Bytes → Bool
is_dot name = same name (codes ".") || same name (codes "..")

abbrev pub info_of : ℕ → Bytes → ℕ → DirEntryInfo
info_of number name type = record {
  inode = number;
  name = name;
  file_type = type;
  is_directory = type == 2;
  is_symlink = type == 7;
}

-- Old ext2 volumes leave the type out; then the child's inode tells, if it can be read.
unfoldable pub by_inode : DirEntryInfo → Result Bytes → Result DirEntryInfo
by_inode info (ok child) = ok (record info {
  is_directory = file_type child == s_ifdir;
  is_symlink = file_type child == s_iflnk;
})
by_inode info failed = ok info
by_inode info fault = fault
by_inode info stuck = stuck

unfoldable pub typed : Ext4Reader → DirEntryInfo → Result DirEntryInfo
unfolding by_inode
typed r info =
    let guessed = by_inode info (read_inode r info.inode) in
    if info.file_type == 0 then guessed else ok info

-- An entry with an inode and a name. The name may end behind the directory's content.
unfoldable pub named_entry : Ext4Reader → Bytes → ℕ → ℕ → ℕ → Result (List DirEntryInfo)
named_entry r content at number name_len = do
  demand (leb (at + 8 + name_len) (length content))
  type ← load_field dir_entry2 "file_type" content at
  let name = slice (at + 8) name_len content
  let entry = (do info ← typed r (info_of number name type); ok (info ∷ []))
  if is_dot name then ok [] else entry

-- What the entry at `at` adds to the listing.
unfoldable pub entry_here : Ext4Reader → Bytes → ℕ → Result (List DirEntryInfo)
entry_here r content at = do
  number ← load_field dir_entry2 "inode" content at
  name_len ← load_field dir_entry2 "name_len" content at
  if not (number == 0) && ltb 0 name_len then named_entry r content at number name_len else ok []

-- The loop over the entries, while 8 bytes are left below `limit`, which is `bytes_read`.
unfoldable pub parse_entries : ℕ → Ext4Reader → Bytes → ℕ → ℕ → Result (List DirEntryInfo)
parse_entries zero r content limit at = stuck
parse_entries (suc fuel) r content limit at =
    let round = (do
      rec_len ← load_field dir_entry2 "rec_len" content at
      let entry = (do
        here ← entry_here r content at
        later ← parse_entries fuel r content limit (at + rec_len)
        ok (here ++ later))
      if rec_len == 0 then ok [] else entry) in
    if leb (at + 8) limit then round else ok []

-- The entries take a byte at least, so one round more than there are bytes is enough.
unfoldable pub list_directory : ℕ → ℕ → Ext4Reader → ℕ → Result (List DirEntryInfo)
list_directory fuel depth r number = do
  guard r.mounted
  node ← read_inode r number
  guard (file_type node == s_ifdir)
  let size = field inode "i_size_lo" node
  let content = (do
    bytes ← read_file_data fuel depth r number 0 size
    parse_entries (length bytes + 1) r (bytes ++ replicate (size - length bytes) 0) (length bytes)
        0)
  if size == 0 then ok [] else content
