-- ===== src/Daemon/Entries.antt =====
-- The table of mounts is in order, and mounting and unmounting a partition keeps it so.
use linux2win.Base.{
  ◌≡◌, refl, ◌∙◌, subst, inl, inr, Bool, true, false, none, some, List, [], ◌∷◌, ok, All,
  if◌then◌else◌, Bool-cases, Option-cases, >>=-eq-ok,
}
use linux2win.Device.{Win32, BlockDevice, Call, new_device, open_read_only, is_open}
use linux2win.Device.Interface.{device_of}
use linux2win.Device.Handles.{open_read_only-is_open}
use linux2win.Ext4.Reader.{new_reader, mount}
use linux2win.Ext4.Reader.Mount.{mount-flag}
use linux2win.Disk.Types.{PartitionInfo, DiskApi}
use linux2win.Disk.{device_path_of}
use linux2win.Disk.Classified.{IsMountSafe}
use linux2win.Daemon.{
  Key, key_of, ActiveMount, Mounts, Event, same_key, find, erase, mount_opened,
  mount_data_partition, unmount_data_partition, get_mount_dir_for_partition, unmount_each,
}
use linux2win.Daemon.Table.{find-erase}

-- An entry stands under its partition's key, and can be read.
pub record IsEntry (e : Key × ActiveMount) : Type 0 where
  pub keyed : e.0 ≡ key_of e.1.part
  pub safe : IsMountSafe e.1.part
  pub live : is_open e.1.device ≡ true
  pub mounted : e.1.reader.mounted ≡ true

-- No key stands twice in the table.
abbrev pub Once : Mounts → Type 0
Once [] = Unit {0}
Once ((k, a) ∷ rest) = (find k rest ≡ none) × Once rest

abbrev pub IsTable : Mounts → Type 0
IsTable mounts = All IsEntry mounts × Once mounts

erase-IsTable : (j : Key) (mounts : Mounts) → IsTable mounts → IsTable (erase j mounts)
unfolding erase
erase-IsTable j [] table = table
erase-IsTable j ((k, a) ∷ rest) ((entry, entries), (absent, once)) =
    let (left, unique) = erase-IsTable j rest (entries, once) in
    elim (Bool-cases (same_key k j)) [
      | inl gone ↦ rw gone (left, unique)
      | inr kept ↦ rw kept ((entry, left), (still, unique))
    ]
  where
    still : find k (erase j rest) ≡ none
    still = find-erase j k rest ∙ either (same_key j k)
      where
        either : (b : Bool) → (if b then none else find k rest) ≡ none
        either true = refl
        either false = absent

pub left_table : {m n : Mounts × List Event} → ok m ≡ ok n → m.0 ≡ n.0
left_table e = cc

tables : {m n : Mounts × List Event × Bool} → ok m ≡ ok n → m.0 ≡ n.0
tables e = cc

module _ (os : Win32) (api : DiskApi) where
  unmount-IsTable :
      (key : Key) (mounts : Mounts)
      → IsTable mounts
      → IsTable (unmount_data_partition os api mounts key).0
  unfolding unmount_data_partition
  unmount-IsTable key mounts table = elim (Option-cases (find key mounts)) [
    | inl absent ↦ rw (absent, unmount_data_partition) table
    | inr (a, e) ↦ rw (e, unmount_data_partition) (erase-IsTable key mounts table)
  ]

  pub unmount_each-IsTable :
      (keys : List Key) (mounts : Mounts)
      → IsTable mounts
      → IsTable (unmount_each os api mounts keys).0
  unfolding unmount_each
  unmount_each-IsTable [] mounts table = table
  unmount_each-IsTable (key ∷ keys) mounts table =
      unmount_each-IsTable keys (unmount_data_partition os api mounts key).0
        (unmount-IsTable key mounts table)

  mount_opened-IsTable :
      (mounts : Mounts) (part : PartitionInfo) (device : BlockDevice) (calls : List Call)
      (next : Mounts) (events : List Event) (b : Bool)
      → IsTable mounts
      → IsMountSafe part
      → is_open device ≡ true
      → find (key_of part) mounts ≡ none
      → mount_opened os api mounts part device calls ≡ ok (next, events, b)
      → IsTable next
  unfolding mount_opened
  mount_opened-IsTable mounts part device calls next events b table safe live absent e =
      let ((reader, mounted), m, rest) =
        >>=-eq-ok (mount new_reader (some (device_of os device))) _ e in
      elim (Bool-cases mounted) [
        | inl yes_mounted ↦
            let entry : Key × ActiveMount = (
              key_of part,
              record {
                part = part;
                mount_dir = get_mount_dir_for_partition os api part;
                device = device;
                reader = reader;
              },
            ) in
            let it : (entry ∷ mounts) ≡ next = tables (rw yes_mounted at rest) in
            subst IsTable it (
              (
                record {
                  keyed = refl;
                  safe = safe;
                  live = live;
                  mounted =
                      mount-flag new_reader (some (device_of os device)) reader mounted m
                      ∙ yes_mounted;
                },
                table.0,
              ),
              (absent, table.1),
            )
        | inr refused ↦
            let it : mounts ≡ next = tables (rw refused at rest) in subst IsTable it table
      ]

  pub mount-IsTable :
      (mounts : Mounts) (part : PartitionInfo) (next : Mounts) (events : List Event) (b : Bool)
      → IsTable mounts
      → IsMountSafe part
      → mount_data_partition os api mounts part ≡ ok (next, events, b)
      → IsTable next
  unfolding mount_data_partition
  mount-IsTable mounts part next events b table safe e =
      let tried =
        open_read_only os new_device (device_path_of api part.disk_index) part.starting_offset
          part.total_length in
      let flag =
        open_read_only-is_open os new_device (device_path_of api part.disk_index)
          part.starting_offset part.total_length in
      elim (Option-cases (find (key_of part) mounts)) [
        | inr (a, present) ↦ subst IsTable (tables (rw present at e)) table
        | inl absent ↦ elim (Bool-cases tried.2) [
          | inl opened ↦
              mount_opened-IsTable mounts part tried.0 tried.1 next events b table safe
                (flag ∙ opened) absent (rw (absent, opened) at e)
          | inr closed ↦ subst IsTable (tables (rw (absent, closed) at e)) table
        ]
      ]
