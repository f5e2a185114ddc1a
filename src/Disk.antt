-- ===== src/Disk.antt =====
-- src/disk/disk_enumerator.cpp: the drives and their partitions, and which of these may be mounted.
pub mod Types
pub mod Classified
pub mod Safety
pub mod Enumeration
pub mod Runs
use linux2win.Base.{
  ℕ, zero, suc, ◌+◌, ◌-◌, ◌^◌, Bool, true, false, not, ◌&&◌, ◌||◌, Option, none, some, List, [],
  ◌∷◌, ◌++◌, Bytes, codes, length, drop, slice, ltb, leb, ◌==◌, if◌then◌else◌, bit_and,
}
use linux2win.Guid.{Guid, no_guid}
use linux2win.Ext4.Layout.{superblock, field_bytes}
use linux2win.Ext4.Reader.{superblock_offset, c_string, uuid_text}
use linux2win.Disk.Types.{
  PartitionInfo, DiskInfo, Style, gpt, mbr, raw, LayoutEntry, Bus, usb, nvme, sata, scsi, sas,
  virtual, other, Descriptor, DiskApi,
}
use linux2win.Partition.{
  PartitionKind, FilesystemType, linux_data, ext2, ext3, ext4, classify_gpt, classify_mbr,
  is_safe_data_partition, is_excluded_system_partition, probe_filesystem,
}

module _ (api : DiskApi) where
  -- GPT_BASIC_DATA_ATTRIBUTE_READ_ONLY is bit 60.
  unfoldable pub styled : PartitionInfo → Style → PartitionInfo
  styled part (gpt type unique attributes name) = record part {
    is_gpt = true;
    gpt_type_guid = type;
    gpt_unique_id = unique;
    kind = classify_gpt type;
    name = api.to_utf8 name;
    is_bootable = bit_and attributes (2 ^ 60) == 0;
  }
  styled part (mbr type boot) = record part {
    is_gpt = false;
    mbr_type = type;
    is_bootable = boot;
    kind = classify_mbr type boot;
  }
  styled part raw = part

  abbrev pub blank_part : ℕ → LayoutEntry → PartitionInfo
  blank_part disk e = record {
    disk_index = disk;
    partition_number = e.number;
    starting_offset = e.offset;
    total_length = e.len;
    is_gpt = false;
    gpt_type_guid = no_guid;
    gpt_unique_id = no_guid;
    mbr_type = 0;
    is_bootable = false;
    kind = PartitionKind.unknown;
    fs_type = FilesystemType.unknown;
    name = [];
    fs_label = [];
    fs_uuid = [];
    is_data_partition = false;
  }

  -- One round of the loop of `query_disk_layout`, for an entry that has a length.
  unfoldable pub layout_part : ℕ → LayoutEntry → PartitionInfo
  unfolding styled
  layout_part disk e =
      let part = styled (blank_part disk e) e.style in
      record part { is_data_partition = is_safe_data_partition part.kind }

  unfoldable pub layout_parts : ℕ → List LayoutEntry → List PartitionInfo
  layout_parts disk [] = []
  layout_parts disk (e ∷ es) =
      let rest = layout_parts disk es in if e.len == 0 then rest else layout_part disk e ∷ rest

  unfoldable pub query_disk_layout : ℕ → DiskInfo → DiskInfo
  query_disk_layout handle disk = elim (api.layout handle) [
    | none ↦ disk
    | some (is_gpt, entries) ↦ record disk {
      has_gpt = is_gpt;
      partitions = disk.partitions ++ layout_parts disk.disk_index entries;
    }
  ]

  abbrev pub is_ext : FilesystemType → Bool
  is_ext ext2 = true
  is_ext ext3 = true
  is_ext ext4 = true
  is_ext _ = false

  -- An unknown partition that holds an ext file system becomes a data partition.
  abbrev pub promote : PartitionKind → PartitionKind
  promote PartitionKind.unknown = linux_data
  promote kind = kind

  abbrev pub was_unknown : PartitionKind → Bool
  was_unknown PartitionKind.unknown = true
  was_unknown _ = false

  unfoldable pub label_part : Bytes → PartitionInfo → PartitionInfo
  label_part buffer part =
      let sb = drop superblock_offset buffer in
      record part {
        fs_label = c_string (field_bytes superblock "s_volume_name" sb);
        fs_uuid = uuid_text 0 (field_bytes superblock "s_uuid" sb);
        kind = promote part.kind;
        is_data_partition = if was_unknown part.kind then true else part.is_data_partition;
      }

  abbrev pub probe_size : ℕ
  probe_size = 65536 + 4096

  unfoldable pub probed_part : Bytes → PartitionInfo → PartitionInfo
  unfolding label_part
  probed_part buffer part =
      let fs = probe_filesystem buffer (length buffer) in
      let typed : PartitionInfo = record part { fs_type = fs } in
      if is_ext fs then label_part buffer typed else typed

  unfoldable pub probe_partition_filesystem : ℕ → PartitionInfo → PartitionInfo
  unfolding probed_part
  probe_partition_filesystem handle part =
      if ltb part.total_length 4096
      then part
      else elim (api.read_at handle part.starting_offset probe_size) [
        | none ↦ part
        | some buffer ↦ if leb 2048 (length buffer) then probed_part buffer part else part
      ]

  unfoldable pub probe_all : ℕ → List PartitionInfo → List PartitionInfo
  probe_all handle [] = []
  probe_all handle (p ∷ ps) = probe_partition_filesystem handle p ∷ probe_all handle ps

  abbrev pub bus_name : Bus → Bytes
  bus_name usb = codes "USB"
  bus_name nvme = codes "NVMe"
  bus_name sata = codes "SATA"
  bus_name scsi = codes "SCSI"
  bus_name sas = codes "SAS"
  bus_name virtual = codes "Virtual"
  bus_name other = codes "Other"

  -- Trailing spaces are cut off; a C string holds no zero.
  unfoldable pub trim_right : Bytes → Bytes
  trim_right [] = []
  trim_right (c ∷ cs) = elim (trim_right cs) [
    | [] ↦ if c == 32 then [] else c ∷ []
    | d ∷ ds ↦ c ∷ d ∷ ds
  ]

  unfoldable pub text_at : Descriptor → ℕ → Bytes
  text_at d at =
      if ltb 0 at && ltb at d.bytes_returned then trim_right (c_string (drop at d.buffer)) else []

  abbrev pub or_text : Bytes → Bytes → Bytes
  or_text [] default = default
  or_text (c ∷ cs) default = c ∷ cs

  abbrev pub full_name : Bytes → Bytes → Bytes
  full_name [] product = product
  full_name (c ∷ cs) product = (c ∷ cs) ++ (32 ∷ product)

  unfoldable pub query_disk_properties : ℕ → DiskInfo → DiskInfo
  query_disk_properties handle disk = elim (api.properties handle) [
    | none ↦ disk
    | some d ↦ record disk {
      is_removable = d.removable;
      bus_type = bus_name d.bus;
      friendly_name =
          or_text (full_name (text_at d d.vendor_offset) (text_at d d.product_offset))
            (codes "Physical Disk " ++ api.decimal disk.disk_index);
      serial_number = text_at d d.serial_offset;
    }
  ]

  abbrev pub device_path_of : ℕ → Bytes
  device_path_of index = codes "\\\\.\\PhysicalDrive" ++ api.decimal index

  unfoldable pub query_geometry : ℕ → DiskInfo → DiskInfo
  query_geometry handle disk = elim (api.geometry handle) [
    | none ↦ record disk { sector_size = 512 }
    | some (size, sector) ↦ record disk {
      total_size_bytes = size;
      sector_size = if sector == 0 then 512 else sector;
    }
  ]

  abbrev pub blank_disk : ℕ → DiskInfo
  blank_disk index = record {
    disk_index = index;
    device_path = device_path_of index;
    friendly_name = [];
    serial_number = [];
    bus_type = [];
    total_size_bytes = 0;
    sector_size = 512;
    is_removable = false;
    has_gpt = false;
    partitions = [];
  }

  unfoldable pub inspect_disk : ℕ → Option DiskInfo
  unfolding query_geometry query_disk_properties query_disk_layout
  inspect_disk index = elim (api.open_drive (device_path_of index)) [
    | none ↦ none
    | some handle ↦
        let sized = query_geometry handle (blank_disk index) in
        let described = query_disk_properties handle sized in
        let laid_out = query_disk_layout handle described in
        some (record laid_out { partitions = probe_all handle laid_out.partitions })
  ]

  -- The loop over the indices, with the rounds that are left and the misses in a row.
  unfoldable pub enumerate_loop : ℕ → ℕ → ℕ → List DiskInfo
  enumerate_loop zero i misses = []
  enumerate_loop (suc left) i misses =
      let seen = inspect_disk i in
      let missed : ℕ = elim seen [ none ↦ misses + 1 | some disk ↦ 0 ] in
      let rest = enumerate_loop left (i + 1) missed in
      elim seen [ some disk ↦ disk ∷ rest | none ↦ if leb 3 missed && leb 4 i then [] else rest ]

  unfoldable pub enumerate_all_disks : List DiskInfo
  unfolding enumerate_loop
  enumerate_all_disks = enumerate_loop 32 0 0

  abbrev pub is_mountable : PartitionInfo → Bool
  is_mountable part = part.is_data_partition && not (is_excluded_system_partition part.kind)

  unfoldable pub mountable_parts : List PartitionInfo → List PartitionInfo
  mountable_parts [] = []
  mountable_parts (p ∷ ps) =
      let rest = mountable_parts ps in if is_mountable p then p ∷ rest else rest

  unfoldable pub mountable_of : List DiskInfo → List PartitionInfo
  mountable_of [] = []
  mountable_of (d ∷ ds) = mountable_parts d.partitions ++ mountable_of ds

  unfoldable pub get_all_mountable_partitions : List PartitionInfo
  unfolding enumerate_all_disks mountable_of
  get_all_mountable_partitions = mountable_of enumerate_all_disks
