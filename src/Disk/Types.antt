-- ===== src/Disk/Types.antt =====
-- `PartitionInfo` and `DiskInfo` of include/linux2win/types.hpp, and what Windows answers about the
-- drives, which is a parameter of the model.
use linux2win.Base.{ℕ, Bool, Option, List, Bytes}
use linux2win.Guid.{Guid}
use linux2win.Partition.{PartitionKind, FilesystemType}

pub record PartitionInfo : Type 0 where
  pub disk_index : ℕ
  pub partition_number : ℕ
  pub starting_offset : ℕ
  pub total_length : ℕ
  pub is_gpt : Bool
  pub gpt_type_guid : Guid
  pub gpt_unique_id : Guid
  pub mbr_type : ℕ
  pub is_bootable : Bool
  pub kind : PartitionKind
  pub fs_type : FilesystemType
  pub name : Bytes
  pub fs_label : Bytes
  pub fs_uuid : Bytes
  pub is_data_partition : Bool

pub record DiskInfo : Type 0 where
  pub disk_index : ℕ
  pub device_path : Bytes
  pub friendly_name : Bytes
  pub serial_number : Bytes
  pub bus_type : Bytes
  pub total_size_bytes : ℕ
  pub sector_size : ℕ
  pub is_removable : Bool
  pub has_gpt : Bool
  pub partitions : List PartitionInfo

-- PARTITION_INFORMATION_EX, by its style. A GPT name is UTF-16, an offset 64 bits wide.
pub data Style : Type 0 where
  gpt : Guid → Guid → ℕ → List ℕ → Style
  mbr : ℕ → Bool → Style
  raw : Style

pub record LayoutEntry : Type 0 where
  pub number : ℕ
  pub offset : ℕ
  pub len : ℕ
  pub style : Style

-- STORAGE_DEVICE_DESCRIPTOR, in the buffer that it begins.
pub data Bus : Type 0 where
  usb nvme sata scsi sas virtual other : Bus

pub record Descriptor : Type 0 where
  pub removable : Bool
  pub bus : Bus
  pub vendor_offset : ℕ
  pub product_offset : ℕ
  pub serial_offset : ℕ
  pub buffer : Bytes
  pub bytes_returned : ℕ

-- The calls that the enumerator makes: `CreateFileW` on a drive's path, the three `DeviceIoControl`
-- queries (the layout with its style, GPT or not), `SetFilePointerEx` with `ReadFile`, the conversion
-- of UTF-16 to UTF-8, and `std::to_string` of a number.
pub record DiskApi : Type 0 where
  pub open_drive : Bytes → Option ℕ
  pub geometry : ℕ → Option (ℕ × ℕ)
  pub properties : ℕ → Option Descriptor
  pub layout : ℕ → Option (Bool × List LayoutEntry)
  pub read_at : ℕ → ℕ → ℕ → Option Bytes
  pub to_utf8 : List ℕ → Bytes
  pub decimal : ℕ → Bytes
