-- ===== src/Disk/Safety.antt =====
-- No system partition gets from the drives to the list of what may be mounted.
use linux2win.Base.{
  ◌≡◌, refl, sym, ◌∙◌, All-append, Bool, true, false, not, ◌&&◌, List, [], ◌∷◌, arith, All,
  Bool-cases, inl, inr,
}
use linux2win.Disk.Types.{PartitionInfo, DiskInfo, DiskApi}
use linux2win.Partition.{is_excluded_system_partition}
use linux2win.Disk.{
  enumerate_all_disks, mountable_parts, mountable_of, get_all_mountable_partitions, is_mountable,
}
use linux2win.Disk.Classified.{
  IsClassified, IsMountSafe, IsClassifiedDisk, enumerate_all_disks-IsClassified,
}

module _ (api : DiskApi) where
  is_mountable-IsMountSafe :
      (p : PartitionInfo) → IsClassified p → is_mountable api p ≡ true → IsMountSafe p
  is_mountable-IsMountSafe p c h =
      let (safe, kept) = both p.is_data_partition (is_excluded_system_partition p.kind) h in
      (sym c.flag ∙ safe, sym c.excluded ∙ kept)
    where
      both : (a b : Bool) → (a && not b) ≡ true → (a ≡ true) × (b ≡ false)
      both true false h = (refl, refl)
      both true true h = ground arith
      both false b h = ground arith

  pub mountable_parts-IsMountSafe :
      (ps : List PartitionInfo) → All IsClassified ps → All IsMountSafe (mountable_parts api ps)
  unfolding mountable_parts
  mountable_parts-IsMountSafe [] all = tt
  mountable_parts-IsMountSafe (p ∷ ps) (c, cs) = elim (Bool-cases (is_mountable api p)) [
    | inl kept ↦ rw kept (is_mountable-IsMountSafe p c kept, mountable_parts-IsMountSafe ps cs)
    | inr cut ↦ rw cut (mountable_parts-IsMountSafe ps cs)
  ]

  mountable_of-IsMountSafe :
      (ds : List DiskInfo) → All (IsClassifiedDisk api) ds → All IsMountSafe (mountable_of api ds)
  unfolding mountable_of
  mountable_of-IsMountSafe [] all = tt
  mountable_of-IsMountSafe (d ∷ ds) (c, cs) =
      All-append IsMountSafe (mountable_parts api d.partitions) (mountable_of api ds)
        (mountable_parts-IsMountSafe d.partitions c) (mountable_of-IsMountSafe ds cs)

  -- Whatever Windows answers about the drives, each partition in the list of what may be mounted is
  -- of a data kind (Linux data, root, home, srv or var), and its type is none of the system's: of a
  -- GPT partition not the GUID of EFI, BIOS boot, Linux boot, swap, the Microsoft reserved or the
  -- recovery partition, of an MBR partition not the type byte 0x82, 0xef or 0x27.
  pub get_all_mountable_partitions-IsMountSafe : All IsMountSafe (get_all_mountable_partitions api)
  unfolding get_all_mountable_partitions enumerate_all_disks
  get_all_mountable_partitions-IsMountSafe =
      mountable_of-IsMountSafe (enumerate_all_disks api) (enumerate_all_disks-IsClassified api)
