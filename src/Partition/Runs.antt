-- ===== src/Partition/Runs.antt =====
-- The classification of a Linux home partition and of a swap partition.
use linux2win.Base.{◌≡◌, refl, not, ◌&&◌, true, false}
use linux2win.Guid.{
  guid_eq, from_string, clean, read_guid, stoul, read_prefixed, read_number, read_pairs,
}
use linux2win.Partition.{
  guid, linux_swap, classify_gpt, classify_linux, is_safe_data_partition,
  is_excluded_system_partition, linux_home_guid, linux_swap_guid,
}
use linux2win.Partition.Safety.{
  is_among, system_guids, data_guids, classify_gpt_exact, safe_not_excluded,
}

home_safe : is_safe_data_partition (classify_gpt linux_home_guid) ≡ true
unfolding is_safe_data_partition classify_gpt classify_linux guid_eq guid from_string clean
    read_guid stoul read_prefixed read_number read_pairs
home_safe = refl

classify_gpt_exact_example :
    (is_excluded_system_partition (classify_gpt linux_swap_guid)
      ≡ is_among linux_swap_guid system_guids)
    × (is_safe_data_partition (classify_gpt linux_swap_guid)
        ≡ (not (is_among linux_swap_guid system_guids) && is_among linux_swap_guid data_guids))
classify_gpt_exact_example = classify_gpt_exact linux_swap_guid

safe_not_excluded_example :
    (is_safe_data_partition linux_swap && is_excluded_system_partition linux_swap) ≡ false
safe_not_excluded_example = safe_not_excluded linux_swap
