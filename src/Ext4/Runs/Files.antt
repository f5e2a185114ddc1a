-- ===== src/Ext4/Runs/Files.antt =====
-- Files, directories and paths of the volume.
use native.Mathlib.Decide.{dec_lt}
use linux2win.Base.{
  Gives, ◌↔◌, replicate, ◌/◌, ℕ, ◌+◌, ◌*◌, ◌%◌, ◌<◌, ◌≤◌, ◌≡◌, ◌≢◌, refl, subst, false, [], ◌∷◌,
  ◌++◌, arith, Bytes, List, ok, stuck, ◌>>=◌, All, codes, length, u32,
}
use linux2win.Ext4.Layout.{inode, sizeof, field, field_bytes, load, load_field}
use linux2win.Ext4.Reader.{join32}
use linux2win.Ext4.Inode.{read_inode, device_block}
use linux2win.Ext4.Indirect.{read_indirect_block}
use linux2win.Ext4.Indirect.Bounds.{IsBlock, read_indirect_block-IsBlock}
use linux2win.Ext4.File.{file_size, read_file_data, lookup_block, block_chunk, uses_extents}
use linux2win.Ext4.File.Contents.{HasBytes, block_bytes}
use linux2win.Ext4.File.Ends.{IsBacked}
use linux2win.Ext4.File.Reads.{
  available, read_file_data-HasBytes, read_file_data-total, read_file_data-endless,
}
use linux2win.Ext4.Directory.{
  list_directory, info_of, parse_entries, entry_here, named_entry, typed,
}
use linux2win.Ext4.Directory.Ends.{list_directory-ends}
use linux2win.Ext4.Directory.Listing.{
  RawEntry, IsWritable, encode_entries, shown_all, parse_entries-encode,
}
use linux2win.Ext4.Path.{find_entry, split_path, lookup_path, walk}
use linux2win.Ext4.Path.Parts.{IsPart, join, split_path-join, lookup_path-slash}
use linux2win.Ext4.Runs.{
  image, volume, device_on-IsExact, reader, reader-IsValid, node_of, reads_12, padded, stored,
}

-- The last two bytes of block 20 and the first two of the hole behind it.
across : read_file_data 5 0 reader 12 1022 4 ≡ ok (7 ∷ 9 ∷ 0 ∷ 0 ∷ [])
unfolding read_file_data read_inode field sizeof lookup_block join32 block_chunk read_indirect_block
    load device_block
across = refl

read_file_data-HasBytes_example :
    HasBytes 0 reader (node_of 12) 1022 (available (node_of 12) 1022 4) (7 ∷ 9 ∷ 0 ∷ 0 ∷ [])
read_file_data-HasBytes_example =
    read_file_data-HasBytes 5 0 reader (volume 16) 12 1022 4 (node_of 12) reader-IsValid refl
      (device_on-IsExact (image 16)) refl (λ e. cc) (omega arith) reads_12 (7 ∷ 9 ∷ 0 ∷ 0 ∷ [])
      across

mapped_12 :
    (length (field_bytes inode "i_block" (node_of 12)) ≡ 60) × (uses_extents (node_of 12) ≡ false)
unfolding field
mapped_12 = (refl, refl)

block_0 : block_bytes 0 reader (node_of 12) 0 ≡ ok (padded 1024 (stored (20 * 1024) (image 16)))
unfolding block_bytes lookup_block field read_indirect_block load device_block
block_0 = refl

block_1 : block_bytes 0 reader (node_of 12) 1 ≡ ok (replicate 1024 0)
unfolding block_bytes lookup_block field read_indirect_block load device_block
block_1 = refl

-- The first block of the file is block 20, and the second is a hole.
pub bytes_of_12 : IsBacked 0 reader (node_of 12) 0 1500
bytes_of_12 j h = elim (dec_lt j 1024) [
  | yes p ↦
      let first : 0 ≡ (0 + j) / 1024 % u32 = omega arith in
      subst (λ n. Gives (block_bytes 0 reader (node_of 12) n)) first
        (padded 1024 (stored (20 * 1024) (image 16)), block_0)
  | no p ↦
      let second : 1 ≡ (0 + j) / 1024 % u32 = omega arith in
      subst (λ n. Gives (block_bytes 0 reader (node_of 12) n)) second (replicate 1024 0, block_1)
]

read_file_data-total_example :
    Gives (read_file_data 9000 0 reader 12 100 8000)
    ↔ IsBacked 0 reader (node_of 12) 100 (available (node_of 12) 100 8000)
read_file_data-total_example =
    read_file_data-total 9000 0 reader (volume 16) 12 100 8000 (node_of 12) reader-IsValid refl
      (device_on-IsExact (image 16)) refl (λ e. cc) (omega arith) reads_12 (omega arith)
      (omega arith)

reads_13 : read_inode reader 13 ≡ ok (node_of 13)
unfolding read_inode field sizeof
reads_13 = refl

large_13 : u32 ≤ available (node_of 13) 0 u32
unfolding file_size field join32
large_13 = omega arith

read_file_data-endless_example : read_file_data 1000 0 reader 13 0 u32 ≢ ok []
read_file_data-endless_example =
    read_file_data-endless 1000 0 reader (volume 16) 13 0 u32 (node_of 13) reader-IsValid refl
      (device_on-IsExact (image 16)) refl (λ e. cc) (omega arith) reads_13 [] large_13

read_indirect_block-IsBlock_example : IsBlock (read_indirect_block reader (node_of 12) 70000)
read_indirect_block-IsBlock_example =
    read_indirect_block-IsBlock reader (volume 16) refl (device_on-IsExact (image 16)) (omega arith)
      (node_of 12) 70000 mapped_12.0

abbrev raw_entries : List RawEntry
raw_entries =
    record { number = 2; type = 2; name = b'.' ∷ []; pad = 3 }
    ∷ record { number = 0; type = 1; name = b'x' ∷ []; pad = 3 }
    ∷ record { number = 12; type = 1; name = b'a' ∷ []; pad = 3 }
    ∷ []

letter-IsWritable :
    (number type c : ℕ)
    → number < 13
    → type ≢ 0
    → IsWritable (record { number = number; type = type; name = c ∷ []; pad = 3 })
letter-IsWritable number type c small typed = record {
  number_fits = omega arith;
  record_fits = omega arith;
  name_fits = omega arith;
  typed_entry = typed;
}

writable : All IsWritable raw_entries
writable = (
  letter-IsWritable 2 2 b'.' (omega arith) (λ e. cc),
  (
    letter-IsWritable 0 1 b'x' (omega arith) (λ e. cc),
    (letter-IsWritable 12 1 b'a' (omega arith) (λ e. cc), tt),
  ),
)

listed : shown_all raw_entries ≡ info_of 12 (b'a' ∷ []) 1 ∷ []
listed = refl

parse_entries-encode_example :
    parse_entries 5 reader
      ([] ++ encode_entries raw_entries)
      (0 + length (encode_entries raw_entries))
      0
    ≡ ok (shown_all raw_entries)
parse_entries-encode_example = parse_entries-encode reader raw_entries [] 5 writable (omega arith)

two : All IsPart (codes "home" ∷ codes "me" ∷ [])
two = (((λ e. cc), (refl, (refl, (refl, (refl, tt))))), (((λ e. cc), (refl, (refl, tt))), tt))

split_path-join_example :
    All IsPart (split_path (codes "//home\\me/"))
    × (split_path (join (codes "home" ∷ codes "me" ∷ [])) ≡ codes "home" ∷ codes "me" ∷ [])
split_path-join_example = split_path-join (codes "//home\\me/") (codes "home" ∷ codes "me" ∷ []) two

root_found : lookup_path 20 0 reader (codes "/a") ≡ ok 12
unfolding lookup_path walk split_path list_directory read_inode field sizeof read_file_data
    block_chunk lookup_block read_indirect_block load device_block parse_entries load_field
    entry_here named_entry typed find_entry
root_found = refl

lookup_path-slash_example :
    lookup_path 20 0 reader ([] ++ codes "/a")
    ≡ (lookup_path 20 0 reader [] >>= λ middle. walk 20 0 reader middle (split_path (codes "a")))
lookup_path-slash_example = lookup_path-slash 20 0 reader [] (codes "a") refl (λ e. cc)

-- The root directory is read within 20 rounds.
reads_2 : read_inode reader 2 ≡ ok (node_of 2)
unfolding read_inode field sizeof
reads_2 = refl

root_bytes :
    read_file_data 20 0 reader 2 0 (field inode "i_size_lo" (node_of 2))
    ≡ ok (padded 1024 (stored (22 * 1024) (image 16)))
unfolding read_inode field sizeof read_file_data block_chunk lookup_block read_indirect_block load
    device_block
root_bytes = refl

root_read :
    (node : Bytes)
    → read_inode reader 2 ≡ ok node
    → read_file_data 20 0 reader 2 0 (field inode "i_size_lo" node) ≢ stuck
root_read node e =
    let it : node_of 2 ≡ node = cc (e, reads_2) in
    subst (λ n. read_file_data 20 0 reader 2 0 (field inode "i_size_lo" n) ≢ stuck) it
      λ s. cc (s, root_bytes)

list_directory-ends_example : list_directory 20 0 reader 2 ≢ stuck
list_directory-ends_example = list_directory-ends 20 0 reader 2 root_read
