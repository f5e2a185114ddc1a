-- ===== src/Command/Runs.antt =====
-- Commands on the computer of Disk/Runs, and a copy of the file of Ext4/Runs.
use linux2win.Base.{
  subst, sym, ◌≢◌, ◌⊎◌, length, ℕ, ◌-◌, ◌≡◌, refl, Bool, true, Option, some, List, [], ◌∷◌, ◌++◌,
  arith, Bytes, ok, codes, same, if◌then◌else◌,
}
use linux2win.Ext4.Layout.{field, sizeof, load, load_field}
use linux2win.Ext4.Reader.{join32}
use linux2win.Ext4.Inode.{read_inode, device_block}
use linux2win.Ext4.Indirect.{read_indirect_block}
use linux2win.Ext4.File.{file_size, read_file_data, block_chunk, lookup_block}
use linux2win.Ext4.File.Contents.{HasBytes}
use linux2win.Ext4.File.Ends.{IsBacked}
use linux2win.Ext4.Directory.{list_directory, parse_entries, entry_here, named_entry, typed}
use linux2win.Ext4.Path.{lookup_path, walk, split_path, find_entry}
use linux2win.Ext4.Runs.{
  image, volume, device_on-IsExact, reader, reader-IsValid, node_of, reads_12,
}
use linux2win.Ext4.Runs.Files.{bytes_of_12}
use linux2win.Disk.Runs.{computer}
use linux2win.Daemon.Runs.{os}
use linux2win.Command.{Files, export_loop, main}
use linux2win.Disk.{enumerate_all_disks, get_all_mountable_partitions}
use linux2win.Command.Scan.{Line, no_drives, complete, cmd_scan, cmd_scan-complete}
use linux2win.Command.Quiet.{Safely}
use linux2win.Command.Safety.{events_of, main-Safely}
use linux2win.Command.Export.{gather, export_loop-HasBytes}

abbrev files : Files
files = record {
  is_directory = λ path. true;
  join = λ folder name. folder ++ (b'\\' ∷ name);
  filename = λ path. path;
  can_create = λ path. true;
}

abbrev number_of : Bytes → Option ℕ
number_of text = if same text (codes "2") then some 2 else some 0

abbrev starts : Bytes → Bool
starts folder = true

abbrev mount_2 : List Bytes
mount_2 = codes "mount" ∷ codes "0" ∷ codes "2" ∷ []

main-Safely_example :
    Safely
      (events_of 9 0 os computer starts files number_of)
      (main 9 0 os computer starts files number_of mount_2)
main-Safely_example = main-Safely 9 0 os computer starts files number_of mount_2

looks_up : lookup_path 70000 0 reader (codes "a") ≡ ok 12
unfolding lookup_path walk split_path list_directory read_inode field sizeof read_file_data
    block_chunk lookup_block read_indirect_block load device_block parse_entries load_field
    entry_here named_entry typed find_entry join32
looks_up = refl

small_12 : file_size (node_of 12) ≡ 1500
unfolding file_size field join32
small_12 = refl

export_loop-HasBytes_example :
    (chunks : List Bytes) × (export_loop 70000 0 1501 reader (codes "a") (file_size (node_of 12)) 0
      ≡ ok chunks)
    × HasBytes 0 reader (node_of 12) 0 (file_size (node_of 12) - 0) (gather chunks)
export_loop-HasBytes_example =
    export_loop-HasBytes 70000 0 reader (volume 16) (codes "a") 12 (node_of 12) reader-IsValid refl
      (device_on-IsExact (image 16)) refl looks_up reads_12
      (subst (IsBacked 0 reader (node_of 12) 0) (sym small_12) bytes_of_12) (omega arith)
      (omega (arith, small_12)) 1501 0 (omega (arith, small_12))

cmd_scan-complete_example :
    ((enumerate_all_disks computer ≡ []) × (cmd_scan computer ≡ no_drives ∷ []))
    ⊎ ((enumerate_all_disks computer ≢ [])
        × ((lines : List Line) × (system : ℕ) × (cmd_scan computer
              ≡ lines ++ (complete (length (get_all_mountable_partitions computer)) system ∷ []))))
cmd_scan-complete_example = cmd_scan-complete computer
