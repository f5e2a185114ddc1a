-- ===== src/Partition.antt =====
-- `PartitionFilter` of src/disk/partition_filter.cpp with the kinds and GUIDs of types.hpp.
pub mod Safety
mod Runs
use linux2win.Base.{
  ℕ, ◌+◌, Bool, true, false, not, ◌&&◌, ◌||◌, List, [], ◌∷◌, Bytes, String, codes, drop, slice,
  same, ltb, leb, ◌==◌, if◌then◌else◌, bit_and,
}
use linux2win.Guid.{Guid, guid_eq, from_string}
use linux2win.Ext4.Layout.{superblock, field}
use linux2win.Ext4.Reader.{
  superblock_magic, superblock_offset, feature_incompat_extents, feature_incompat_64bit,
}

pub data PartitionKind : Type 0 where
  unknown linux_data linux_root linux_home linux_srv linux_var linux_boot linux_swap : PartitionKind
  efi_system bios_boot windows_msr windows_data windows_recovery : PartitionKind

pub data FilesystemType : Type 0 where
  unknown ext2 ext3 ext4 btrfs xfs : FilesystemType

-- The constants of `namespace guids`.
unfoldable pub guid : String → Guid
guid text = from_string (codes text)

abbrev pub linux_generic_data_guid : Guid
linux_generic_data_guid = guid "0fc63daf-8483-4772-8e79-3d69d8477de4"

abbrev pub linux_root_x86_64_guid : Guid
linux_root_x86_64_guid = guid "4f68bce3-e8cd-4db1-96e7-fbcaf984b709"

abbrev pub linux_root_arm64_guid : Guid
linux_root_arm64_guid = guid "69dad710-2ce4-4e3c-b16c-21a1d49abed3"

abbrev pub linux_root_x86_guid : Guid
linux_root_x86_guid = guid "44479540-f297-412e-ba79-2567842e16c2"

abbrev pub linux_home_guid : Guid
linux_home_guid = guid "933ac7e2-d68e-4444-bd25-ce80fdb68037"

abbrev pub linux_srv_guid : Guid
linux_srv_guid = guid "3b8f8425-20e0-4f3b-814a-112e00142f12"

abbrev pub linux_var_guid : Guid
linux_var_guid = guid "4d21b016-b534-45c2-a9fb-5c16e091fd2d"

abbrev pub linux_var_tmp_guid : Guid
linux_var_tmp_guid = guid "7ec6f557-3bc5-4aca-b293-16ef5df639d1"

abbrev pub linux_user_home_guid : Guid
linux_user_home_guid = guid "773f0e24-5d23-4d7a-cd77-61047cb5d029"

abbrev pub efi_system_guid : Guid
efi_system_guid = guid "c12a7328-f81f-11d2-ba4b-00a0c93ec93b"

abbrev pub bios_boot_guid : Guid
bios_boot_guid = guid "21686148-6449-6e6f-744e-656564454649"

abbrev pub linux_boot_guid : Guid
linux_boot_guid = guid "bc13c2ff-59e6-4262-a352-b275fd6f7172"

abbrev pub linux_swap_guid : Guid
linux_swap_guid = guid "0657fd6d-a4ab-43c4-84e5-0933c84b4f4f"

abbrev pub windows_msr_guid : Guid
windows_msr_guid = guid "e3c9e310-0b23-11d1-a4a4-00aa00c76742"

abbrev pub windows_recovery_guid : Guid
windows_recovery_guid = guid "de94bba4-06d1-4d40-a16a-bfd50179d6ac"

-- The second half of `classify_gpt`, for what is not a system partition.
unfoldable pub classify_linux : Guid → PartitionKind
classify_linux g =
    if guid_eq g linux_generic_data_guid
    then linux_data
    else if guid_eq g linux_root_x86_64_guid
    then linux_root
    else if guid_eq g linux_root_arm64_guid
    then linux_root
    else if guid_eq g linux_root_x86_guid
    then linux_root
    else if guid_eq g linux_home_guid
    then linux_home
    else if guid_eq g linux_srv_guid
    then linux_srv
    else if guid_eq g linux_var_guid
    then linux_var
    else if guid_eq g linux_var_tmp_guid
    then linux_var
    else if guid_eq g linux_user_home_guid
    then linux_home
    else PartitionKind.unknown

unfoldable pub classify_gpt : Guid → PartitionKind
classify_gpt g =
    if guid_eq g efi_system_guid
    then efi_system
    else if guid_eq g bios_boot_guid
    then bios_boot
    else if guid_eq g linux_boot_guid
    then linux_boot
    else if guid_eq g linux_swap_guid
    then linux_swap
    else if guid_eq g windows_msr_guid
    then windows_msr
    else if guid_eq g windows_recovery_guid
    then windows_recovery
    else classify_linux g

-- The boot indicator is an argument of the source that it does not read.
unfoldable pub classify_mbr : ℕ → Bool → PartitionKind
classify_mbr mbr_type is_bootable =
    if mbr_type == 0x83
    then linux_data
    else if mbr_type == 0x82
    then linux_swap
    else if mbr_type == 0xef
    then efi_system
    else if mbr_type == 0x07
    then windows_data
    else if mbr_type == 0x27
    then windows_recovery
    else PartitionKind.unknown

unfoldable pub is_safe_data_partition : PartitionKind → Bool
is_safe_data_partition linux_data = true
is_safe_data_partition linux_root = true
is_safe_data_partition linux_home = true
is_safe_data_partition linux_srv = true
is_safe_data_partition linux_var = true
is_safe_data_partition _ = false

unfoldable pub is_excluded_system_partition : PartitionKind → Bool
is_excluded_system_partition efi_system = true
is_excluded_system_partition bios_boot = true
is_excluded_system_partition linux_boot = true
is_excluded_system_partition linux_swap = true
is_excluded_system_partition windows_msr = true
is_excluded_system_partition windows_recovery = true
is_excluded_system_partition _ = false

unfoldable pub kind_to_string : PartitionKind → Bytes
kind_to_string linux_data = codes "Linux Filesystem Data"
kind_to_string linux_root = codes "Linux Root"
kind_to_string linux_home = codes "Linux /home"
kind_to_string linux_srv = codes "Linux /srv"
kind_to_string linux_var = codes "Linux /var"
kind_to_string linux_boot = codes "Linux /boot (Excluded)"
kind_to_string linux_swap = codes "Linux Swap (Excluded)"
kind_to_string efi_system = codes "EFI System Partition (Excluded)"
kind_to_string bios_boot = codes "BIOS Boot (Excluded)"
kind_to_string windows_msr = codes "Microsoft Reserved (Excluded)"
kind_to_string windows_data = codes "Windows Basic Data"
kind_to_string windows_recovery = codes "Windows Recovery (Excluded)"
kind_to_string PartitionKind.unknown = codes "Unknown"

unfoldable pub fs_type_to_string : FilesystemType → Bytes
fs_type_to_string ext2 = codes "Ext2"
fs_type_to_string ext3 = codes "Ext3"
fs_type_to_string ext4 = codes "Ext4"
fs_type_to_string btrfs = codes "Btrfs"
fs_type_to_string xfs = codes "XFS"
fs_type_to_string FilesystemType.unknown = codes "Unknown"

abbrev pub has_bits : ℕ → ℕ → Bool
has_bits word mask = not (bit_and word mask == 0)

-- Ext2, ext3 or ext4, by the features of a superblock.
unfoldable pub ext_version : Bytes → FilesystemType
ext_version sb =
    let incompat = field superblock "s_feature_incompat" sb in
    if has_bits incompat feature_incompat_extents || has_bits incompat feature_incompat_64bit
    then ext4
    else if has_bits (field superblock "s_feature_compat" sb) 0x0004
    then ext3
    else ext2

-- `buffer_size` bytes of the buffer are valid.
unfoldable pub probe_filesystem : Bytes → ℕ → FilesystemType
probe_filesystem buffer buffer_size =
    let sb = drop superblock_offset buffer in
    if ltb buffer_size 2048
    then FilesystemType.unknown
    else if field superblock "s_magic" sb == superblock_magic
    then ext_version sb
    else if leb 0x10048 buffer_size && same (slice 0x10040 8 buffer) (codes "_BHRfS_M")
    then btrfs
    else FilesystemType.unknown
