-- ===== src/Daemon/Runs.antt =====
-- The computer of Disk/Runs, whose second partition holds the volume of Ext4/Runs.
use linux2win.Base.{
  ◌+◌, ◌*◌, ◌^◌, ◌≡◌, refl, true, none, some, List, [], ◌∷◌, Bytes, codes, ok, ◌==◌, if◌then◌else◌,
}
use linux2win.Device.{Win32, BlockDevice, is_open, read, open_read_only, creates, generic_read}
use linux2win.Device.Interface.{device_of}
use linux2win.Ext4.Layout.{field}
use linux2win.Ext4.Reader.{mount, inode_size_of, groups_count_of, desc_size_of}
use linux2win.Ext4.Runs.{padded, superblock_of, reader_of}
use linux2win.Guid.{
  no_guid, guid_eq, from_string, clean, read_guid, stoul, read_prefixed, read_number, read_pairs,
}
use linux2win.Partition.{
  PartitionKind, FilesystemType, linux_generic_data_guid, guid, classify_gpt, classify_linux,
  is_safe_data_partition, is_excluded_system_partition,
}
use linux2win.Disk.{
  device_path_of, enumerate_all_disks, get_all_mountable_partitions, inspect_disk, mountable_parts,
  probe_all, layout_parts, probe_partition_filesystem, layout_part,
}
use linux2win.Disk.Types.{PartitionInfo}
use linux2win.Disk.Runs.{computer}
use linux2win.Daemon.{
  Mounts, Event, rescan, handle_call, projfs_start, show_mounted, removed, run, act, find,
  rescan_and_mount_all, mount_each, mount_data_partition, get_mount_dir_for_partition, window_proc,
}
use linux2win.Daemon.Table.{is_present, window_proc-removed}
use linux2win.Daemon.Entries.{IsTable}
use linux2win.Daemon.Safety.{run-IsTable}

abbrev pub os : Win32
os = record {
  create_file = λ path access unbuffered. some 7;
  set_file_pointer = λ h position. true;
  read_file = λ h position count.
      some (padded count (if position == 2 * 2 ^ 20 + 1024 then superblock_of 16 else []));
}

abbrev part_2 : PartitionInfo
part_2 = record {
  disk_index = 0;
  partition_number = 2;
  starting_offset = 2 * 2 ^ 20;
  total_length = 2 ^ 20;
  is_gpt = true;
  gpt_type_guid = linux_generic_data_guid;
  gpt_unique_id = no_guid;
  mbr_type = 0;
  is_bootable = true;
  kind = PartitionKind.linux_data;
  fs_type = FilesystemType.unknown;
  name = [];
  fs_label = [];
  fs_uuid = [];
  is_data_partition = true;
}

part_found : get_all_mountable_partitions computer ≡ part_2 ∷ []
unfolding get_all_mountable_partitions inspect_disk mountable_parts probe_all layout_parts
    probe_partition_filesystem layout_part is_safe_data_partition is_excluded_system_partition
    classify_gpt classify_linux guid_eq guid from_string clean read_guid stoul read_prefixed
    read_number read_pairs
part_found = refl

abbrev device : BlockDevice
device = record {
  handle = some 7;
  device_path = device_path_of computer 0;
  partition_offset = 2 * 2 ^ 20;
  partition_size = 2 ^ 20;
  sector_size = 512;
}

abbrev mount_dir : Bytes
mount_dir = codes "C:\\LinuxDisks\\Disk0_Part2"

abbrev table : Mounts
table =
    (
      (0, 2),
      record {
        part = part_2;
        mount_dir = mount_dir;
        device = device;
        reader = reader_of 16 (device_of os device);
      },
    )
    ∷ []

abbrev events : List Event
events =
    handle_call (creates generic_read true (some 7))
    ∷ projfs_start mount_dir
    ∷ show_mounted (0, 2)
    ∷ []

part_mounted : mount_data_partition os computer [] part_2 ≡ ok (table, events, true)
unfolding mount_data_partition find mount open_read_only field read inode_size_of groups_count_of
    desc_size_of is_open get_mount_dir_for_partition
part_mounted = refl

starts : run os computer [] (rescan ∷ []) ≡ ok (table, events)
unfolding run act rescan_and_mount_all mount_each
starts = rw (part_found, mount_each, part_mounted) refl

run-IsTable_example : IsTable table
run-IsTable_example = run-IsTable os computer (rescan ∷ []) [] table events (tt, tt) starts

-- Disk 1 is not there any more, and its partition 2 stays as it was.
window_proc-removed_example :
    (left : Mounts) × (events : List Event) × (window_proc os computer table removed
      ≡ ok (left, events))
    × (find (1, 2) left ≡ (
        if is_present os computer 1 (enumerate_all_disks computer)
        then none
        else find (1, 2) table))
window_proc-removed_example = window_proc-removed os computer 1 2 table

-- The table has a mount of a disk that is gone.
abbrev stale : Mounts
stale =
    (
      (1, 1),
      record {
        part = part_2;
        mount_dir = mount_dir;
        device = device;
        reader = reader_of 16 (device_of os device);
      },
    )
    ∷ []
