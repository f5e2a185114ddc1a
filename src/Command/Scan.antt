-- ===== src/Command/Scan.antt =====
-- `cmd_scan` of src/main.cpp: the drives with their partitions, what each is held for, and the two counts.
-- The sizes and names that are printed with them are the fields of the records.
use linux2win.Base.{
  ℕ, suc, ◌+◌, ◌≡◌, ◌≢◌, ◌⊎◌, refl, ap, ◌∙◌, inl, inr, Bool, true, false, not, ◌&&◌, List, [], ◌∷◌,
  ◌++◌, arith, All, length, length-append, if◌then◌else◌,
}
use linux2win.Partition.{is_excluded_system_partition}
use linux2win.Disk.Types.{PartitionInfo, DiskInfo, DiskApi}
use linux2win.Disk.{
  enumerate_all_disks, is_mountable, mountable_parts, mountable_of, get_all_mountable_partitions,
}
use linux2win.Disk.Classified.{IsClassified, IsClassifiedDisk, enumerate_all_disks-IsClassified}
use linux2win.Command.Parts.{data_part-IsMountSafe}

pub data Status : Type 0 where
  safe_data excluded ignored : Status

pub data Line : Type 0 where
  no_drives : Line
  drive : DiskInfo → Line
  partition : PartitionInfo → Status → Line
  complete : ℕ → ℕ → Line

abbrev pub status_of : PartitionInfo → Status
status_of part =
    if part.is_data_partition
    then safe_data
    else if is_excluded_system_partition part.kind
    then excluded
    else ignored

-- The lines of some partitions or drives, and how many are of a data and of a system kind.
pub record Report : Type 0 where
  pub lines : List Line
  pub total_data_partitions : ℕ
  pub total_excluded_partitions : ℕ

abbrev pub count_part : Status → Report → Report
count_part safe_data rest = record rest { total_data_partitions = suc rest.total_data_partitions }
count_part excluded rest = record rest {
  total_excluded_partitions = suc rest.total_excluded_partitions;
}
count_part ignored rest = rest

abbrev pub put_line : Line → Report → Report
put_line line rest = record rest { lines = line ∷ rest.lines }

unfoldable pub scan_parts : List PartitionInfo → Report → Report
scan_parts [] rest = rest
scan_parts (part ∷ parts) rest =
    put_line (partition part (status_of part)) (count_part (status_of part) (scan_parts parts rest))

unfoldable pub scan_disks : List DiskInfo → Report
unfolding scan_parts
scan_disks [] = record { lines = []; total_data_partitions = 0; total_excluded_partitions = 0 }
scan_disks (disk ∷ disks) = put_line (drive disk) (scan_parts disk.partitions (scan_disks disks))

abbrev pub report_of : List DiskInfo → List Line
report_of [] = no_drives ∷ []
report_of (disk ∷ disks) =
    let report = scan_disks (disk ∷ disks) in
    report.lines ++ (complete report.total_data_partitions report.total_excluded_partitions ∷ [])

unfoldable pub cmd_scan : DiskApi → List Line
unfolding scan_disks
cmd_scan api = report_of (enumerate_all_disks api)

counted :
    (is_data is_system : Bool) (rest : Report)
    → (is_data ≡ true → is_system ≡ false)
    → (count_part
        (if is_data then safe_data else if is_system then excluded else ignored)
        rest).total_data_partitions
      ≡ (if is_data && not is_system then 1 else 0) + rest.total_data_partitions
counted true false rest h = omega arith
counted true true rest h = cc (h refl)
counted false true rest h = omega arith
counted false false rest h = omega arith

module _ (api : DiskApi) where
  counted_part :
      (part : PartitionInfo) (rest : Report)
      → IsClassified part
      → (count_part (status_of part) rest).total_data_partitions
        ≡ (if is_mountable api part then 1 else 0) + rest.total_data_partitions
  counted_part part rest c =
      counted part.is_data_partition (is_excluded_system_partition part.kind) rest
        (λ there. c.excluded ∙ (data_part-IsMountSafe part c there).1)

  length-if :
      (b : Bool) (p : PartitionInfo) (ps : List PartitionInfo)
      → length (if b then p ∷ ps else ps) ≡ (if b then 1 else 0) + length ps
  length-if true p ps = omega arith
  length-if false p ps = omega arith

  scan_parts-total :
      (parts : List PartitionInfo) (rest : Report)
      → All IsClassified parts
      → (scan_parts parts rest).total_data_partitions
        ≡ length (mountable_parts api parts) + rest.total_data_partitions
  unfolding scan_parts mountable_parts
  scan_parts-total [] rest all = omega arith
  scan_parts-total (part ∷ parts) rest (c, cs) = omega (
    arith,
    counted_part part (scan_parts parts rest) c,
    scan_parts-total parts rest cs,
    length-if (is_mountable api part) part (mountable_parts api parts),
  )

  scan_disks-total :
      (disks : List DiskInfo)
      → All (IsClassifiedDisk api) disks
      → (scan_disks disks).total_data_partitions ≡ length (mountable_of api disks)
  unfolding scan_disks mountable_of
  scan_disks-total [] all = refl
  scan_disks-total (disk ∷ disks) (c, cs) = omega (
    arith,
    scan_parts-total disk.partitions (scan_disks disks) c,
    scan_disks-total disks cs,
    length-append (mountable_parts api disk.partitions) (mountable_of api disks),
  )

  -- Whatever Windows answers, `scan` says that there are no drives exactly if none is found; else its last
  -- line promises as many mountable partitions as the daemon is given to mount.
  pub cmd_scan-complete :
      ((enumerate_all_disks api ≡ []) × (cmd_scan api ≡ no_drives ∷ []))
      ⊎ ((enumerate_all_disks api ≢ [])
          × ((lines : List Line) × (system : ℕ) × (cmd_scan api
                ≡ lines ++ (complete (length (get_all_mountable_partitions api)) system ∷ []))))
  unfolding cmd_scan get_all_mountable_partitions
  cmd_scan-complete = split (enumerate_all_disks api) (enumerate_all_disks-IsClassified api)
    where
      split :
          (disks : List DiskInfo)
          → All (IsClassifiedDisk api) disks
          → ((disks ≡ []) × (report_of disks ≡ no_drives ∷ []))
            ⊎ ((disks ≢ [])
                × ((lines : List Line) × (system : ℕ) × (report_of disks
                      ≡ lines ++ (complete (length (mountable_of api disks)) system ∷ []))))
      split [] all = inl (refl, refl)
      split (disk ∷ disks) all =
          let report = scan_disks (disk ∷ disks) in
          inr (
            (λ e. cc),
            (
              report.lines,
              report.total_excluded_partitions,
              ap (λ n. report.lines ++ (complete n report.total_excluded_partitions ∷ []))
                  (scan_disks-total (disk ∷ disks) all),
            ),
          )
