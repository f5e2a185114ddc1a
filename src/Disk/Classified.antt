-- ===== src/Disk/Classified.antt =====
-- Each partition of a drive is classified by its type, whatever is found on it.
use linux2win.Base.{
  ℕ, zero, suc, ◌+◌, ◌≡◌, refl, ◌∙◌, Bool, true, false, ◌||◌, Option, none, some, List, [], ◌∷◌,
  arith, Bytes, All, ltb, leb, length, ◌==◌, if◌then◌else◌, Bool-cases, Option-cases, inl, inr,
}
use linux2win.Disk.Types.{PartitionInfo, DiskInfo, DiskApi, LayoutEntry, Style, gpt, mbr, raw}
use linux2win.Partition.{is_safe_data_partition, is_excluded_system_partition, probe_filesystem}
use linux2win.Partition.Safety.{is_among, system_guids, classify_gpt_exact, classify_mbr_exact}
use linux2win.Disk.{
  layout_part, layout_parts, query_disk_layout, label_part, probed_part, probe_partition_filesystem,
  probe_all, query_geometry, query_disk_properties, inspect_disk, probe_size, enumerate_loop,
  enumerate_all_disks, is_ext, device_path_of, blank_disk,
}

-- The type of a partition marks it as one of the system's: EFI, boot, swap, recovery or reserved.
abbrev pub is_system_type : PartitionInfo → Bool
is_system_type p =
    if p.is_gpt
    then is_among p.gpt_type_guid system_guids
    else p.mbr_type == 0x82 || (p.mbr_type == 0xef || p.mbr_type == 0x27)

-- The flag follows the kind, and a kind is excluded only for the types of the system.
pub record IsClassified (p : PartitionInfo) : Type 0 where
  pub flag : p.is_data_partition ≡ is_safe_data_partition p.kind
  pub excluded : is_excluded_system_partition p.kind ≡ is_system_type p

abbrev pub IsMountSafe : PartitionInfo → Type 0
IsMountSafe p = (is_safe_data_partition p.kind ≡ true) × (is_system_type p ≡ false)

module _ (api : DiskApi) where
  layout_part-IsClassified :
      (disk : ℕ) (number offset len : ℕ) (style : Style)
      → IsClassified (
          layout_part api disk
            (record { number = number; offset = offset; len = len; style = style }))
  unfolding layout_part
  layout_part-IsClassified disk number offset len (gpt type unique attributes name) = record {
    flag = refl;
    excluded = (classify_gpt_exact type).0;
  }
  layout_part-IsClassified disk number offset len (mbr type boot) = record {
    flag = refl;
    excluded = (classify_mbr_exact type boot).1;
  }
  layout_part-IsClassified disk number offset len raw = record {
    flag = refl;
    excluded = unfold is_excluded_system_partition in refl;
  }

  layout_parts-IsClassified :
      (disk : ℕ) (es : List LayoutEntry) → All IsClassified (layout_parts api disk es)
  unfolding layout_parts
  layout_parts-IsClassified disk [] = tt
  layout_parts-IsClassified disk (e ∷ es) = elim (Bool-cases (e.len == 0)) [
    | inl empty ↦ rw empty (layout_parts-IsClassified disk es)
    | inr used ↦ rw used (
      layout_part-IsClassified disk e.number e.offset e.len e.style,
      layout_parts-IsClassified disk es,
    )
  ]

  label_part-IsClassified :
      (buffer : Bytes) (p : PartitionInfo) → IsClassified p → IsClassified (label_part api buffer p)
  unfolding label_part is_safe_data_partition is_excluded_system_partition
  label_part-IsClassified buffer p c = record { flag = ground arith; excluded = ground arith }

  probed_part-IsClassified :
      (buffer : Bytes) (p : PartitionInfo)
      → IsClassified p
      → IsClassified (probed_part api buffer p)
  unfolding probed_part
  probed_part-IsClassified buffer p c =
      let fs = probe_filesystem buffer (length buffer) in
      let typed : PartitionInfo = record p { fs_type = fs } in
      let kept : IsClassified typed = record { flag = c.flag; excluded = c.excluded } in
      elim (Bool-cases (is_ext api fs)) [
        | inl ext ↦ rw ext (label_part-IsClassified buffer typed kept)
        | inr bare ↦ rw bare kept
      ]

  probe_partition-IsClassified :
      (handle : ℕ) (p : PartitionInfo)
      → IsClassified p
      → IsClassified (probe_partition_filesystem api handle p)
  unfolding probe_partition_filesystem
  probe_partition-IsClassified handle p c = elim (Bool-cases (ltb p.total_length 4096)) [
    | inl tiny ↦ rw tiny c
    | inr large ↦ rw large (answered (api.read_at handle p.starting_offset (probe_size api)))
  ]
    where
      answered :
          (answer : Option Bytes)
          → IsClassified (elim answer [
            | none ↦ p
            | some buffer ↦ if leb 2048 (length buffer) then probed_part api buffer p else p
          ])
      answered none = c
      answered (some buffer) = elim (Bool-cases (leb 2048 (length buffer))) [
        | inl enough ↦ rw enough (probed_part-IsClassified buffer p c)
        | inr short ↦ rw short c
      ]

  probe_all-IsClassified :
      (handle : ℕ) (ps : List PartitionInfo)
      → All IsClassified ps
      → All IsClassified (probe_all api handle ps)
  unfolding probe_all
  probe_all-IsClassified handle [] all = tt
  probe_all-IsClassified handle (p ∷ ps) (c, cs) =
      (probe_partition-IsClassified handle p c, probe_all-IsClassified handle ps cs)

  abbrev pub IsClassifiedDisk : DiskInfo → Type 0
  IsClassifiedDisk disk = All IsClassified disk.partitions

  query_geometry-partitions :
      (handle : ℕ) (disk : DiskInfo) → (query_geometry api handle disk).partitions ≡ disk.partitions
  unfolding query_geometry
  query_geometry-partitions handle disk = elim (Option-cases (api.geometry handle)) [
    | inl e ↦ rw (e, query_geometry) refl
    | inr (x, e) ↦ rw (e, query_geometry) refl
  ]

  query_disk_properties-partitions :
      (handle : ℕ) (disk : DiskInfo)
      → (query_disk_properties api handle disk).partitions ≡ disk.partitions
  unfolding query_disk_properties
  query_disk_properties-partitions handle disk = elim (Option-cases (api.properties handle)) [
    | inl e ↦ rw (e, query_disk_properties) refl
    | inr (x, e) ↦ rw (e, query_disk_properties) refl
  ]

  query_disk_layout-IsClassified :
      (handle : ℕ) (disk : DiskInfo)
      → disk.partitions ≡ []
      → IsClassifiedDisk (query_disk_layout api handle disk)
  unfolding query_disk_layout
  query_disk_layout-IsClassified handle disk bare = elim (Option-cases (api.layout handle)) [
    | inl e ↦ rw (e, query_disk_layout, bare) tt
    | inr ((is_gpt, es), e) ↦
        rw (e, query_disk_layout, bare) (layout_parts-IsClassified disk.disk_index es)
  ]

  abbrev pub All? : Option DiskInfo → Type 0
  All? none = Unit {0}
  All? (some disk) = IsClassifiedDisk disk

  pub inspect_disk-IsClassified : (index : ℕ) → All? (inspect_disk api index)
  unfolding inspect_disk
  inspect_disk-IsClassified index = opened (api.open_drive (device_path_of api index))
    where
      opened :
          (handle : Option ℕ)
          → All? (elim handle [
            | none ↦ none
            | some handle ↦
                let sized = query_geometry api handle (blank_disk api index) in
                let described = query_disk_properties api handle sized in
                let laid_out = query_disk_layout api handle described in
                some (record laid_out { partitions = probe_all api handle laid_out.partitions })
          ])
      opened none = tt
      opened (some handle) =
          let sized = query_geometry api handle (blank_disk api index) in
          let described = query_disk_properties api handle sized in
          probe_all-IsClassified handle (query_disk_layout api handle described).partitions (
            query_disk_layout-IsClassified handle described (
              query_disk_properties-partitions handle sized
              ∙ query_geometry-partitions handle (blank_disk api index)))

  seen-IsClassified :
      (seen : Option DiskInfo) (stop : Bool) (rest : List DiskInfo)
      → All? seen
      → All IsClassifiedDisk rest
      → All IsClassifiedDisk (elim seen as (λ x. List DiskInfo) [
        | some disk ↦ disk ∷ rest
        | none ↦ if stop then [] else rest
      ])
  seen-IsClassified none true rest c cs = tt
  seen-IsClassified none false rest c cs = cs
  seen-IsClassified (some disk) stop rest c cs = (c, cs)

  enumerate_loop-IsClassified :
      (left i misses : ℕ) → All IsClassifiedDisk (enumerate_loop api left i misses)
  unfolding enumerate_loop
  enumerate_loop-IsClassified zero i misses = tt
  enumerate_loop-IsClassified (suc left) i misses =
      seen-IsClassified (inspect_disk api i) _ _ (inspect_disk-IsClassified i)
        (enumerate_loop-IsClassified left (i + 1) _)

  pub enumerate_all_disks-IsClassified : All IsClassifiedDisk (enumerate_all_disks api)
  unfolding enumerate_all_disks
  enumerate_all_disks-IsClassified = enumerate_loop-IsClassified 32 0 0
