-- ===== src/Ext4/Path.antt =====
-- `lookup_path` of src/fs/ext4_reader.cpp and the operations by path that start with it.
pub mod Parts
use linux2win.Base.{
  ℕ, Bool, ◌||◌, Option, none, some, List, [], ◌∷◌, ◌++◌, Bytes, Result, ok, failed, guard, ◌>>=◌,
  ◌>>◌, from_option, same, codes, ◌==◌, if◌then◌else◌,
}
use linux2win.Ext4.Reader.{Ext4Reader}
use linux2win.Ext4.File.{FileStat, read_file_data, stat_inode}
use linux2win.Ext4.Directory.{DirEntryInfo, list_directory}

abbrev pub root_inode : ℕ
root_inode = 2

-- Both kinds of slash separate.
abbrev pub is_separator : ℕ → Bool
is_separator c = c == b'/' || c == b'\\'

abbrev pub push_part : Bytes → List Bytes → List Bytes
push_part [] parts = parts
push_part (c ∷ cs) parts = (c ∷ cs) ∷ parts

-- The loop over the characters, with the part that is being read.
unfoldable pub split_loop : Bytes → Bytes → List Bytes
split_loop current [] = push_part current []
split_loop current (c ∷ cs) =
    let rest = split_loop (if is_separator c then [] else current ++ (c ∷ [])) cs in
    if is_separator c then push_part current rest else rest

unfoldable pub split_path : Bytes → List Bytes
unfolding split_loop
split_path path = split_loop [] path

unfoldable pub find_entry : Bytes → List DirEntryInfo → Option ℕ
find_entry part [] = none
find_entry part (e ∷ es) = if same e.name part then some e.inode else find_entry part es

-- The loop over the parts.
unfoldable pub walk : ℕ → ℕ → Ext4Reader → ℕ → List Bytes → Result ℕ
walk fuel depth r current [] = ok current
walk fuel depth r current (part ∷ parts) = list_directory fuel depth r current >>= λ entries.
    from_option (find_entry part entries) >>= λ child. walk fuel depth r child parts

unfoldable pub is_root_path : Bytes → Bool
is_root_path path =
    same path [] || same path (codes "/") || same path (codes "\\") || same path (codes ".")

unfoldable pub lookup_path : ℕ → ℕ → Ext4Reader → Bytes → Result ℕ
unfolding is_root_path
lookup_path fuel depth r path = do
  guard r.mounted
  if is_root_path path then ok root_inode else walk fuel depth r root_inode (split_path path)

unfoldable pub stat_path : ℕ → ℕ → Ext4Reader → Bytes → Result FileStat
stat_path fuel depth r path = do
  number ← lookup_path fuel depth r path
  stat_inode fuel depth r number

unfoldable pub list_directory_path : ℕ → ℕ → Ext4Reader → Bytes → Result (List DirEntryInfo)
list_directory_path fuel depth r path = do
  number ← lookup_path fuel depth r path
  list_directory fuel depth r number

unfoldable pub read_file_by_path : ℕ → ℕ → Ext4Reader → Bytes → ℕ → ℕ → Result Bytes
read_file_by_path fuel depth r path offset size = do
  number ← lookup_path fuel depth r path
  read_file_data fuel depth r number offset size
