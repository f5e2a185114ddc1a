-- ===== src/Daemon/Ends.antt =====
-- What a rescan of the daemon leaves in the table of mounts.
use linux2win.Base.{◌≡◌, ◌⊎◌, Bool, true, none, some, List, Result, ok, All, Returns, is_some}
use linux2win.Device.{Win32, BlockDevice, Call, new_device, open_read_only}
use linux2win.Device.Interface.{device_of}
use linux2win.Ext4.Reader.{Ext4Reader, new_reader, mount}
use linux2win.Disk.Types.{PartitionInfo, DiskApi}
use linux2win.Disk.{device_path_of}
use linux2win.Daemon.{Key, key_of, Mounts, find}

-- The call comes back with an answer of which `P` holds, unless its behaviour is undefined.
abbrev pub Delivers {ℓ κ} : {A : Type ℓ} → (A → Type κ) → Result A → Type (ℓ ⊔ κ)
Delivers {A = A} P m = Returns m × ((a : A) → m ≡ ok a → P a)

-- What was in the table is still in it.
abbrev pub Keeps : Mounts → Mounts → Type 0
Keeps mounts after = (key : Key) → (find key mounts ≡ none) ⊎ (find key after ≡ find key mounts)

module _ (os : Win32) (api : DiskApi) where
  -- `open_read_only` on the partition's disk, as the daemon calls it.
  abbrev pub tried_open : PartitionInfo → BlockDevice × List Call × Bool
  tried_open part =
      open_read_only os new_device (device_path_of api part.disk_index) part.starting_offset
        part.total_length

  -- A window on the partition opens, and a new reader mounts it.
  abbrev pub CanMount : PartitionInfo → Type 0
  CanMount part =
      ((tried_open part).2 ≡ true)
      × ((reader : Ext4Reader) × (mount new_reader (some (device_of os (tried_open part).0))
            ≡ ok (reader, true)))

  -- After one partition: nothing is lost, and the partition is there if it can be mounted.
  abbrev Follows : Mounts → PartitionInfo → Mounts → Type 0
  Follows mounts part next =
      Keeps mounts next × (CanMount part → is_some (find (key_of part) next) ≡ true)

  abbrev FollowsAll : Mounts → List PartitionInfo → Mounts → Type 0
  FollowsAll mounts parts after =
      Keeps mounts after
      × All (λ part. CanMount part → is_some (find (key_of part) after) ≡ true) parts
