-- ===== src/Disk/Runs.antt =====
-- A computer with one GPT disk, of an EFI system partition, a Linux data partition and one more with
-- an unknown type.
use linux2win.Base.{
  ℕ, ◌≡◌, ◌≤◌, refl, same, if◌then◌else◌, none, some, true, [], ◌∷◌, ◌+◌, ◌*◌, ◌^◌, codes, All, map,
}
use linux2win.Guid.{
  Guid, no_guid, guid_eq, from_string, clean, read_guid, stoul, read_prefixed, read_number,
  read_pairs,
}
use linux2win.Partition.{
  guid, efi_system_guid, linux_generic_data_guid, classify_gpt, classify_linux,
  is_safe_data_partition, is_excluded_system_partition,
}
use linux2win.Disk.Types.{DiskApi, LayoutEntry, PartitionInfo, gpt}
use linux2win.Disk.{
  enumerate_all_disks, get_all_mountable_partitions, inspect_disk, mountable_parts, probe_all,
  layout_parts, probe_partition_filesystem, layout_part,
}
use linux2win.Disk.Enumeration.{drives, Stops, enumerate_all_disks-drives}
use linux2win.Disk.Classified.{IsMountSafe}
use linux2win.Disk.Safety.{get_all_mountable_partitions-IsMountSafe}

abbrev entry : ℕ → Guid → LayoutEntry
entry n type = record {
  number = n;
  offset = n * 2 ^ 20;
  len = 2 ^ 20;
  style = gpt type no_guid 0 [];
}

abbrev pub computer : DiskApi
computer = record {
  open_drive = λ path. if same path (codes "\\\\.\\PhysicalDrive0") then some 0 else none;
  geometry = λ h. some (2 ^ 30, 512);
  properties = λ h. none;
  layout = λ h.
      some (true, entry 1 efi_system_guid ∷ entry 2 linux_generic_data_guid ∷ entry 3 no_guid ∷ []);
  read_at = λ h offset size. none;
  to_utf8 = λ units. units;
  decimal = λ n. (48 + n) ∷ [];
}

get_all_mountable_partitions_example : All IsMountSafe (get_all_mountable_partitions computer)
get_all_mountable_partitions_example = get_all_mountable_partitions-IsMountSafe computer

only_data :
    map (λ (p : PartitionInfo). p.partition_number) (get_all_mountable_partitions computer) ≡ 2 ∷ []
unfolding get_all_mountable_partitions inspect_disk mountable_parts probe_all layout_parts
    probe_partition_filesystem layout_part is_safe_data_partition is_excluded_system_partition
    classify_gpt classify_linux guid_eq guid from_string clean read_guid stoul read_prefixed
    read_number read_pairs
only_data = refl

enumerate_all_disks-drives_example :
    (n : ℕ) × (n ≤ 32)
    × (enumerate_all_disks computer ≡ drives computer n 0)
    × Stops computer 32 0 n
enumerate_all_disks-drives_example = enumerate_all_disks-drives computer
