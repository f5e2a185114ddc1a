-- ===== src/Daemon.antt =====
-- src/service/daemon_main.cpp: the table of active mounts and what changes it, with the events that
-- src/disk/disk_monitor.cpp reports. ProjFS and the notifications are seen as events only.
pub mod Table
pub mod Ends
pub mod Entries
pub mod Safety
pub mod Runs
use linux2win.Base.{
  ℕ, Bool, true, false, not, ◌&&◌, Option, none, some, List, [], ◌∷◌, ◌++◌, map, Bytes, codes,
  Result, ok, ◌>>=◌, ◌==◌, if◌then◌else◌, is_some,
}
use linux2win.Device.{Win32, BlockDevice, Call, new_device, open_read_only, close}
use linux2win.Device.Interface.{device_of}
use linux2win.Ext4.Reader.{Ext4Reader, new_reader, mount}
use linux2win.Disk.Types.{PartitionInfo, DiskInfo, DiskApi}
use linux2win.Disk.{
  device_path_of, enumerate_all_disks, mountable_parts, get_all_mountable_partitions,
}

abbrev pub Key : Type 0
Key = ℕ × ℕ

pub record ActiveMount : Type 0 where
  pub part : PartitionInfo
  pub mount_dir : Bytes
  pub device : BlockDevice
  pub reader : Ext4Reader

-- `g_active_mounts`.
abbrev pub Mounts : Type 0
Mounts = List (Key × ActiveMount)

-- What an operation does besides: calls on handles, ProjFS, balloons.
pub data Event : Type 0 where
  handle_call : Call → Event
  projfs_start projfs_stop : Bytes → Event
  show_mounted show_removed : Key → Event

pub data DiskEventType : Type 0 where
  inserted removed : DiskEventType

abbrev pub same_key : Key → Key → Bool
same_key (a, b) (c, d) = a == c && b == d

unfoldable pub find : Key → Mounts → Option ActiveMount
find key [] = none
find key ((k, a) ∷ rest) = let later = find key rest in if same_key k key then some a else later

unfoldable pub erase : Key → Mounts → Mounts
erase key [] = []
erase key ((k, a) ∷ rest) =
    let later = erase key rest in if same_key k key then later else (k, a) ∷ later

abbrev pub key_of : PartitionInfo → Key
key_of part = (part.disk_index, part.partition_number)

module _ (os : Win32) (api : DiskApi) where
  abbrev pub suffix : Bytes → Bytes
  suffix [] = []
  suffix (c ∷ cs) = b'_' ∷ c ∷ cs

  unfoldable pub get_mount_dir_for_partition : PartitionInfo → Bytes
  get_mount_dir_for_partition part =
      codes "C:\\LinuxDisks\\Disk"
      ++ (api.decimal part.disk_index
          ++ (codes "_Part" ++ (api.decimal part.partition_number ++ suffix part.fs_label)))

  -- An open device is given to a new reader; the destructor closes it if the reader refuses it.
  unfoldable pub mount_opened :
      Mounts → PartitionInfo → BlockDevice → List Call → Result (Mounts × List Event × Bool)
  mount_opened mounts part device calls = do
    (reader, mounted) ← mount new_reader (some (device_of os device))
    let dir = get_mount_dir_for_partition part
    if mounted
        then ok (
          (key_of part, record { part = part; mount_dir = dir; device = device; reader = reader })
              ∷ mounts,
          map handle_call calls ++ (projfs_start dir ∷ show_mounted (key_of part) ∷ []),
          true,
        )
        else ok (mounts, map handle_call (calls ++ (close device).1), false)

  unfoldable pub mount_data_partition : Mounts → PartitionInfo → Result (Mounts × List Event × Bool)
  unfolding mount_opened
  mount_data_partition mounts part =
      let (device, calls, opened) =
        open_read_only os new_device (device_path_of api part.disk_index) part.starting_offset
          part.total_length in
      if is_some (find (key_of part) mounts)
      then ok (mounts, [], true)
      else if opened
      then mount_opened mounts part device calls
      else ok (mounts, map handle_call calls, false)

  -- `projfs->stop()` and `device->close()`; the reader gives its device up.
  abbrev pub release : ActiveMount → List Event
  release a = projfs_stop a.mount_dir ∷ map handle_call (close a.device).1

  unfoldable pub unmount_data_partition : Mounts → Key → Mounts × List Event
  unfolding find erase
  unmount_data_partition mounts key = elim (find key mounts) [
    | none ↦ (mounts, [])
    | some a ↦ (erase key mounts, release a ++ (show_removed key ∷ []))
  ]

  unfoldable pub keys_of_disk : ℕ → Mounts → List Key
  keys_of_disk disk [] = []
  keys_of_disk disk (((d, n), a) ∷ rest) =
      let later = keys_of_disk disk rest in if d == disk then (d, n) ∷ later else later

  unfoldable pub unmount_each : Mounts → List Key → Mounts × List Event
  unmount_each mounts [] = (mounts, [])
  unmount_each mounts (key ∷ keys) =
      let (less, events) = unmount_data_partition mounts key in
      let (left, more) = unmount_each less keys in (left, events ++ more)

  unfoldable pub unmount_all_partitions_for_disk : Mounts → ℕ → Mounts × List Event
  unfolding unmount_each
  unmount_all_partitions_for_disk mounts disk = unmount_each mounts (keys_of_disk disk mounts)

  -- The loop of `rescan_and_mount_all` and of an inserted disk; what a mount returns is not looked at.
  unfoldable pub mount_each : Mounts → List PartitionInfo → Result (Mounts × List Event)
  mount_each mounts [] = ok (mounts, [])
  mount_each mounts (part ∷ parts) = do
    (more, events, mounted) ← mount_data_partition mounts part
    (all, later) ← mount_each more parts
    ok (all, events ++ later)

  unfoldable pub rescan_and_mount_all : Mounts → Result (Mounts × List Event)
  rescan_and_mount_all mounts = mount_each mounts (get_all_mountable_partitions api)

  -- The callback that the daemon gives to the monitor; its loop over an inserted disk's partitions
  -- has the test of `get_all_mountable_partitions`.
  unfoldable pub on_disk_event : Mounts → DiskEventType → DiskInfo → Result (Mounts × List Event)
  on_disk_event mounts inserted disk = mount_each mounts (mountable_parts api disk.partitions)
  on_disk_event mounts removed disk = ok (unmount_all_partitions_for_disk mounts disk.disk_index)

  unfoldable pub report_each : Mounts → DiskEventType → List DiskInfo → Result (Mounts × List Event)
  report_each mounts type [] = ok (mounts, [])
  report_each mounts type (disk ∷ disks) = do
    (next, events) ← on_disk_event mounts type disk
    (last, later) ← report_each next type disks
    ok (last, events ++ later)

  -- WM_DEVICECHANGE of an arrival or a removal: all disks that are there are reported.
  unfoldable pub window_proc : Mounts → DiskEventType → Result (Mounts × List Event)
  unfolding report_each
  window_proc mounts type = report_each mounts type (enumerate_all_disks api)

  -- WM_CLOSE and WM_DESTROY.
  unfoldable pub release_all : Mounts → List Event
  release_all [] = []
  release_all ((k, a) ∷ rest) = release a ++ release_all rest

  unfoldable pub close_window : Mounts → Mounts × List Event
  close_window mounts = ([], release_all mounts)

-- What happens to the daemon: a start or `Rescan Now`, a disk that comes or goes, the end.
pub data Action : Type 0 where
  rescan shut_down : Action
  device_change : DiskEventType → Action

module _ (os : Win32) (api : DiskApi) where
  unfoldable pub act : Mounts → Action → Result (Mounts × List Event)
  act mounts rescan = rescan_and_mount_all os api mounts
  act mounts shut_down = ok (close_window os api mounts)
  act mounts (device_change type) = window_proc os api mounts type

  -- The drives that Windows shows are those of `api` at each action.
  unfoldable pub run : Mounts → List Action → Result (Mounts × List Event)
  run mounts [] = ok (mounts, [])
  run mounts (action ∷ actions) = do
    (next, events) ← act mounts action
    (last, later) ← run next actions
    ok (last, events ++ later)
