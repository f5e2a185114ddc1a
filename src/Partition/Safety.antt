-- ===== src/Partition/Safety.antt =====
-- Which partitions the classification lets through, against the lists of GUIDs.
use linux2win.Base.{ℕ, ◌≡◌, Bool, false, not, ◌&&◌, ◌||◌, List, [], ◌∷◌, arith, ◌==◌}
use linux2win.Guid.{Guid, guid_eq}
use linux2win.Partition.{
  PartitionKind, classify_gpt, classify_linux, classify_mbr, is_safe_data_partition,
  is_excluded_system_partition, linux_generic_data_guid, linux_root_x86_64_guid,
  linux_root_arm64_guid, linux_root_x86_guid, linux_home_guid, linux_srv_guid, linux_var_guid,
  linux_var_tmp_guid, linux_user_home_guid, efi_system_guid, bios_boot_guid, linux_boot_guid,
  linux_swap_guid, windows_msr_guid, windows_recovery_guid,
}

-- One of the GUIDs of a list.
abbrev pub is_among : Guid → List Guid → Bool
is_among g [] = false
is_among g (h ∷ hs) = guid_eq g h || is_among g hs

abbrev pub system_guids : List Guid
system_guids =
    efi_system_guid ∷ bios_boot_guid ∷ linux_boot_guid ∷ linux_swap_guid ∷ windows_msr_guid
    ∷ windows_recovery_guid ∷ []

abbrev pub data_guids : List Guid
data_guids =
    linux_generic_data_guid ∷ linux_root_x86_64_guid ∷ linux_root_arm64_guid ∷ linux_root_x86_guid
    ∷ linux_home_guid ∷ linux_srv_guid ∷ linux_var_guid ∷ linux_var_tmp_guid ∷ linux_user_home_guid
    ∷ []

linux-safe : (g : Guid) → is_safe_data_partition (classify_linux g) ≡ is_among g data_guids
unfolding classify_linux is_safe_data_partition
linux-safe g = ground arith

linux-not_excluded : (g : Guid) → is_excluded_system_partition (classify_linux g) ≡ false
unfolding classify_linux is_excluded_system_partition
linux-not_excluded g = ground arith

-- A GPT partition is excluded exactly if its type is one of the six system GUIDs, and safe exactly
-- if it is one of the nine Linux data GUIDs and none of the six: the order of the tests lets no
-- system partition through.
pub classify_gpt_exact :
    (g : Guid)
    → (is_excluded_system_partition (classify_gpt g) ≡ is_among g system_guids)
      × (is_safe_data_partition (classify_gpt g)
          ≡ (not (is_among g system_guids) && is_among g data_guids))
unfolding classify_gpt is_excluded_system_partition is_safe_data_partition
classify_gpt_exact g = (ground (arith, linux-not_excluded g), ground (arith, linux-safe g))

-- An MBR partition is safe exactly if its type is 0x83.
pub classify_mbr_exact :
    (mbr_type : ℕ) (bootable : Bool)
    → (is_safe_data_partition (classify_mbr mbr_type bootable) ≡ (mbr_type == 0x83))
      × (is_excluded_system_partition (classify_mbr mbr_type bootable)
          ≡ (mbr_type == 0x82 || (mbr_type == 0xef || mbr_type == 0x27)))
unfolding classify_mbr is_excluded_system_partition is_safe_data_partition
classify_mbr_exact mbr_type bootable = (ground arith, ground arith)

-- No kind is both safe and excluded.
pub safe_not_excluded :
    (kind : PartitionKind)
    → (is_safe_data_partition kind && is_excluded_system_partition kind) ≡ false
unfolding is_safe_data_partition is_excluded_system_partition
safe_not_excluded kind = ground arith
