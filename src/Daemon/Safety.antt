-- ===== src/Daemon/Safety.antt =====
-- Whatever is mounted: safe, open, read by a mounted reader, and once.
use linux2win.Base.{◌≡◌, subst, List, [], ◌∷◌, ok, All, >>=-eq-ok}
use linux2win.Device.{Win32}
use linux2win.Disk.Types.{PartitionInfo, DiskInfo, DiskApi}
use linux2win.Disk.{enumerate_all_disks, get_all_mountable_partitions, mountable_parts}
use linux2win.Disk.Classified.{IsMountSafe, IsClassifiedDisk, enumerate_all_disks-IsClassified}
use linux2win.Disk.Safety.{mountable_parts-IsMountSafe, get_all_mountable_partitions-IsMountSafe}
use linux2win.Daemon.{
  Mounts, Event, mount_data_partition, keys_of_disk, unmount_all_partitions_for_disk, mount_each,
  rescan_and_mount_all, DiskEventType, inserted, removed, on_disk_event, report_each, window_proc,
  close_window, Action, rescan, shut_down, device_change, act, run,
}
use linux2win.Daemon.Entries.{IsTable, left_table, unmount_each-IsTable, mount-IsTable}

module _ (os : Win32) (api : DiskApi) where
  mount_each-IsTable :
      (mounts : Mounts) (parts : List PartitionInfo) (next : Mounts) (events : List Event)
      → IsTable mounts
      → All IsMountSafe parts
      → mount_each os api mounts parts ≡ ok (next, events)
      → IsTable next
  unfolding mount_each
  mount_each-IsTable mounts [] next events table safe e = subst IsTable (left_table e) table
  mount_each-IsTable mounts (part ∷ parts) next events table (safe, all) e =
      let ((more, first, b), m, rest) = >>=-eq-ok (mount_data_partition os api mounts part) _ e in
      let ((last, later), n, done) = >>=-eq-ok (mount_each os api more parts) _ rest in
      subst IsTable (left_table done) (
        mount_each-IsTable more parts last later
          (mount-IsTable os api mounts part more first b table safe m) all n)

  on_disk_event-IsTable :
      (mounts : Mounts) (type : DiskEventType) (disk : DiskInfo) (next : Mounts)
      (events : List Event)
      → IsTable mounts
      → IsClassifiedDisk api disk
      → on_disk_event os api mounts type disk ≡ ok (next, events)
      → IsTable next
  unfolding on_disk_event unmount_all_partitions_for_disk
  on_disk_event-IsTable mounts inserted disk next events table classified e =
      mount_each-IsTable mounts (mountable_parts api disk.partitions) next events table
        (mountable_parts-IsMountSafe api disk.partitions classified) e
  on_disk_event-IsTable mounts removed disk next events table classified e =
      subst IsTable (left_table e)
        (unmount_each-IsTable os api (keys_of_disk os api disk.disk_index mounts) mounts table)

  report_each-IsTable :
      (mounts : Mounts) (type : DiskEventType) (disks : List DiskInfo) (next : Mounts)
      (events : List Event)
      → IsTable mounts
      → All (IsClassifiedDisk api) disks
      → report_each os api mounts type disks ≡ ok (next, events)
      → IsTable next
  unfolding report_each
  report_each-IsTable mounts type [] next events table classified e =
      subst IsTable (left_table e) table
  report_each-IsTable mounts type (disk ∷ disks) next events table (classified, all) e =
      let ((more, first), m, rest) = >>=-eq-ok (on_disk_event os api mounts type disk) _ e in
      let ((last, later), n, done) = >>=-eq-ok (report_each os api more type disks) _ rest in
      subst IsTable (left_table done) (
        report_each-IsTable more type disks last later
          (on_disk_event-IsTable mounts type disk more first table classified m) all n)

  act-IsTable :
      (mounts : Mounts) (action : Action) (next : Mounts) (events : List Event)
      → IsTable mounts
      → act os api mounts action ≡ ok (next, events)
      → IsTable next
  unfolding act rescan_and_mount_all window_proc close_window
  act-IsTable mounts rescan next events table e =
      mount_each-IsTable mounts (get_all_mountable_partitions api) next events table
        (get_all_mountable_partitions-IsMountSafe api) e
  act-IsTable mounts shut_down next events table e = subst IsTable (left_table e) (tt, tt)
  act-IsTable mounts (device_change type) next events table e =
      report_each-IsTable mounts type (enumerate_all_disks api) next events table
        (enumerate_all_disks-IsClassified api) e

  -- Over any sequence of rescans, arrivals, removals and ends whose behaviour is defined, a table
  -- that is in order stays in order: each partition in it is one that is safe to mount, stands under
  -- its own key and only once, its device is open and its reader mounted.
  pub run-IsTable :
      (actions : List Action) (mounts next : Mounts) (events : List Event)
      → IsTable mounts
      → run os api mounts actions ≡ ok (next, events)
      → IsTable next
  unfolding run
  run-IsTable [] mounts next events table e = subst IsTable (left_table e) table
  run-IsTable (action ∷ actions) mounts next events table e =
      let ((more, first), m, rest) = >>=-eq-ok (act os api mounts action) _ e in
      let ((last, later), n, done) = >>=-eq-ok (run os api more actions) _ rest in
      subst IsTable (left_table done)
        (run-IsTable actions more last later (act-IsTable mounts action more first table m) n)
