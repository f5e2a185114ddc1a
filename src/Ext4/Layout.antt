-- ===== src/Ext4/Layout.antt =====
-- include/linux2win/ext4_types.hpp: the packed on-disk structures, each as the list of its fields
-- with their sizes in bytes. A field's offset is the sum of the sizes in front of it.
use text.Mathlib.Text.{◌==◌ as str_eq}
use linux2win.Base.{
  ℕ, ◌+◌, ◌*◌, List, [], ◌∷◌, ◌++◌, String, Bytes, Result, ok, stuck, arith, ◌≢◌, length, slice,
  le_num, leb, if◌then◌else◌, demand, ◌>>◌,
}

abbrev pub Layout : Type 0
Layout = List (String × ℕ)

unfoldable pub sizeof : Layout → ℕ
sizeof [] = 0
sizeof ((name, size) ∷ fields) = size + sizeof fields

unfoldable pub offset_of : String → Layout → ℕ
offset_of field [] = 0
offset_of field ((name, size) ∷ fields) =
    let rest = size + offset_of field fields in if str_eq name field then 0 else rest

unfoldable pub size_of : String → Layout → ℕ
size_of field [] = 0
size_of field ((name, size) ∷ fields) = if str_eq name field then size else size_of field fields

-- `s.field`, of a structure that lies in memory whole: as bytes, and as a number.
unfoldable pub field_bytes : Layout → String → Bytes → Bytes
unfolding offset_of size_of
field_bytes layout name memory = slice (offset_of name layout) (size_of name layout) memory

unfoldable pub field : Layout → String → Bytes → ℕ
unfolding field_bytes
field layout name memory = le_num (field_bytes layout name memory)

-- A little-endian load of `size` bytes at `at`: undefined behaviour outside of the array.
unfoldable pub load : Bytes → ℕ → ℕ → Result ℕ
load memory at size = do
  demand (leb (at + size) (length memory))
  ok (le_num (slice at size memory))

-- The field of a structure that a cast pointer puts at `at` in an array.
unfoldable pub load_field : Layout → String → Bytes → ℕ → Result ℕ
unfolding load offset_of size_of
load_field layout name memory at = load memory (at + offset_of name layout) (size_of name layout)

pub load_field-ne-stuck :
    (layout : Layout) (name : String) (memory : Bytes) (at : ℕ)
    → load_field layout name memory at ≢ stuck
unfolding load_field
load_field-ne-stuck layout name memory at e = ground arith

abbrev pub superblock : Layout
superblock =
    ("s_inodes_count", 4)
    ∷ ("s_blocks_count_lo", 4)
    ∷ ("s_r_blocks_count_lo", 4)
    ∷ ("s_free_blocks_count_lo", 4)
    ∷ ("s_free_inodes_count", 4)
    ∷ ("s_first_data_block", 4)
    ∷ ("s_log_block_size", 4)
    ∷ ("s_log_cluster_size", 4)
    ∷ ("s_blocks_per_group", 4)
    ∷ ("s_clusters_per_group", 4)
    ∷ ("s_inodes_per_group", 4)
    ∷ ("s_mtime", 4)
    ∷ ("s_wtime", 4)
    ∷ ("s_mnt_count", 2)
    ∷ ("s_max_mnt_count", 2)
    ∷ ("s_magic", 2)
    ∷ ("s_state", 2)
    ∷ ("s_errors", 2)
    ∷ ("s_minor_rev_level", 2)
    ∷ ("s_lastcheck", 4)
    ∷ ("s_checkinterval", 4)
    ∷ ("s_creator_os", 4)
    ∷ ("s_rev_level", 4)
    ∷ ("s_def_resuid", 2)
    ∷ ("s_def_resgid", 2)
    ∷ ("s_first_ino", 4)
    ∷ ("s_inode_size", 2)
    ∷ ("s_block_group_nr", 2)
    ∷ ("s_feature_compat", 4)
    ∷ ("s_feature_incompat", 4)
    ∷ ("s_feature_ro_compat", 4)
    ∷ ("s_uuid", 16)
    ∷ ("s_volume_name", 16)
    ∷ ("s_last_mounted", 64)
    ∷ ("s_algorithm_usage_bitmap", 4)
    ∷ ("s_prealloc_blocks", 1)
    ∷ ("s_prealloc_dir_blocks", 1)
    ∷ ("s_reserved_gdt_blocks", 2)
    ∷ ("s_journal_uuid", 16)
    ∷ ("s_journal_inum", 4)
    ∷ ("s_journal_dev", 4)
    ∷ ("s_last_orphan", 4)
    ∷ ("s_hash_seed", 4 * 4)
    ∷ ("s_def_hash_version", 1)
    ∷ ("s_jnl_backup_type", 1)
    ∷ ("s_desc_size", 2)
    ∷ ("s_default_mount_opts", 4)
    ∷ ("s_first_meta_bg", 4)
    ∷ ("s_mkfs_time", 4)
    ∷ ("s_jnl_blocks", 4 * 17)
    ∷ ("s_blocks_count_hi", 4)
    ∷ ("s_r_blocks_count_hi", 4)
    ∷ ("s_free_blocks_count_hi", 4)
    ∷ ("s_min_extra_isize", 2)
    ∷ ("s_want_extra_isize", 2)
    ∷ ("s_flags", 4)
    ∷ ("s_raid_stride", 2)
    ∷ ("s_mmp_interval", 2)
    ∷ ("s_mmp_block", 8)
    ∷ ("s_raid_stripe_width", 4)
    ∷ ("s_log_groups_per_flex", 1)
    ∷ ("s_checksum_type", 1)
    ∷ ("s_reserved_pad", 2)
    ∷ ("s_kbytes_written", 8)
    ∷ ("s_snapshot_inum", 4)
    ∷ ("s_snapshot_id", 4)
    ∷ ("s_snapshot_r_blocks_count", 8)
    ∷ ("s_snapshot_list", 4)
    ∷ ("s_error_count", 4)
    ∷ ("s_first_error_time", 4)
    ∷ ("s_first_error_ino", 4)
    ∷ ("s_first_error_block", 8)
    ∷ ("s_first_error_func", 32)
    ∷ ("s_first_error_line", 4)
    ∷ ("s_last_error_time", 4)
    ∷ ("s_last_error_ino", 4)
    ∷ ("s_last_error_line", 4)
    ∷ ("s_last_error_block", 8)
    ∷ ("s_last_error_func", 32)
    ∷ ("s_mount_opts", 64)
    ∷ ("s_usr_quota_inum", 4)
    ∷ ("s_grp_quota_inum", 4)
    ∷ ("s_overhead_blocks", 4)
    ∷ ("s_backup_bgs", 4 * 2)
    ∷ ("s_encrypt_algos", 4)
    ∷ ("s_encrypt_pw_salt", 16)
    ∷ ("s_lpf_ino", 4)
    ∷ ("s_prj_quota_inum", 4)
    ∷ ("s_checksum_seed", 4)
    ∷ ("s_reserved", 98 * 4)
    ∷ ("s_checksum", 4)
    ∷ []

abbrev pub group_desc32 : Layout
group_desc32 =
    ("bg_block_bitmap_lo", 4)
    ∷ ("bg_inode_bitmap_lo", 4)
    ∷ ("bg_inode_table_lo", 4)
    ∷ ("bg_free_blocks_count_lo", 2)
    ∷ ("bg_free_inodes_count_lo", 2)
    ∷ ("bg_used_dirs_count_lo", 2)
    ∷ ("bg_flags", 2)
    ∷ ("bg_exclude_bitmap_lo", 4)
    ∷ ("bg_block_bitmap_csum_lo", 2)
    ∷ ("bg_inode_bitmap_csum_lo", 2)
    ∷ ("bg_itable_unused_lo", 2)
    ∷ ("bg_checksum", 2)
    ∷ []

abbrev pub group_desc64 : Layout
group_desc64 =
    group_desc32
    ++ (("bg_block_bitmap_hi", 4)
        ∷ ("bg_inode_bitmap_hi", 4)
        ∷ ("bg_inode_table_hi", 4)
        ∷ ("bg_free_blocks_count_hi", 2)
        ∷ ("bg_free_inodes_count_hi", 2)
        ∷ ("bg_used_dirs_count_hi", 2)
        ∷ ("bg_itable_unused_hi", 2)
        ∷ ("bg_exclude_bitmap_hi", 4)
        ∷ ("bg_block_bitmap_csum_hi", 2)
        ∷ ("bg_inode_bitmap_csum_hi", 2)
        ∷ ("bg_reserved", 4)
        ∷ [])

abbrev pub inode : Layout
inode =
    ("i_mode", 2)
    ∷ ("i_uid", 2)
    ∷ ("i_size_lo", 4)
    ∷ ("i_atime", 4)
    ∷ ("i_ctime", 4)
    ∷ ("i_mtime", 4)
    ∷ ("i_dtime", 4)
    ∷ ("i_gid", 2)
    ∷ ("i_links_count", 2)
    ∷ ("i_blocks_lo", 4)
    ∷ ("i_flags", 4)
    ∷ ("i_osd1", 4)
    ∷ ("i_block", 60)
    ∷ ("i_generation", 4)
    ∷ ("i_file_acl_lo", 4)
    ∷ ("i_size_high", 4)
    ∷ ("i_obso_faddr", 4)
    ∷ ("i_osd2_blocks_high", 2)
    ∷ ("i_osd2_file_acl_high", 2)
    ∷ ("i_osd2_uid_high", 2)
    ∷ ("i_osd2_gid_high", 2)
    ∷ ("i_osd2_checksum_lo", 2)
    ∷ ("i_osd2_reserved", 2)
    ∷ ("i_extra_isize", 2)
    ∷ ("i_checksum_hi", 2)
    ∷ ("i_ctime_extra", 4)
    ∷ ("i_mtime_extra", 4)
    ∷ ("i_atime_extra", 4)
    ∷ ("i_crtime", 4)
    ∷ ("i_crtime_extra", 4)
    ∷ ("i_version_hi", 4)
    ∷ ("i_projid", 4)
    ∷ []

abbrev pub extent_header : Layout
extent_header =
    ("eh_magic", 2)
    ∷ ("eh_entries", 2)
    ∷ ("eh_max", 2)
    ∷ ("eh_depth", 2)
    ∷ ("eh_generation", 4)
    ∷ []

abbrev pub extent_idx : Layout
extent_idx = ("ei_block", 4) ∷ ("ei_leaf_lo", 4) ∷ ("ei_leaf_hi", 2) ∷ ("ei_unused", 2) ∷ []

abbrev pub extent : Layout
extent = ("ee_block", 4) ∷ ("ee_len", 2) ∷ ("ee_start_hi", 2) ∷ ("ee_start_lo", 4) ∷ []

abbrev pub dir_entry2 : Layout
dir_entry2 = ("inode", 4) ∷ ("rec_len", 2) ∷ ("name_len", 1) ∷ ("file_type", 1) ∷ ("name", 255) ∷ []
