-- ===== src/Device/Runs.antt =====
-- The block device on a disk whose byte at `p` is `p % 256`.
use linux2win.Base.{
  ℕ, ◌+◌, ◌%◌, ◌^◌, ◌<◌, ◌≤◌, ◌≡◌, refl, ◌⊎◌, none, some, List, [], ◌∷◌, arith, All, if◌then◌else◌,
  codes, ltb, leb,
}
use linux2win.Device.{Win32, BlockDevice, new_device, read, open_read_only, close, move_assign}
use linux2win.Device.Interface.{IsExact, device_of, device_of-IsExact}
use linux2win.Device.Handles.{
  Two, Op, step, open_left, open_right, close_right, assign_left, run, opened, closed, held,
  IsReadOnly, run_balance, run-IsReadOnly,
}
use linux2win.Device.Window.{bytes_at, length-bytes_at, IsFaithful, read_sound}

abbrev counting : ℕ → ℕ
counting p = p % 256

-- An unbuffered handle is refused; any other open gives handle 7, on a disk of 2 ^ 62 bytes.
abbrev os : Win32
os = record {
  create_file = λ path access unbuffered. if unbuffered then none else some 7;
  set_file_pointer = λ h position. ltb position (2 ^ 63);
  read_file = λ h position count.
      if leb (position + count) (2 ^ 62) then some (bytes_at counting position count) else none;
}

abbrev window : BlockDevice
window = record {
  handle = some 7;
  device_path = codes "\\\\.\\PhysicalDrive1";
  partition_offset = 2 ^ 20;
  partition_size = 4096;
  sector_size = 512;
}

os-IsFaithful : IsFaithful os counting
os-IsFaithful h position count got e = ground (arith, length-bytes_at counting position count)

abbrev history : List Op
history =
    open_left (codes "a") 0 0
    ∷ open_right (codes "b") 0 0
    ∷ assign_left
    ∷ close_right
    ∷ open_left (codes "c") 0 0
    ∷ []

abbrev two_new : Two
two_new = record { left = new_device; right = new_device }

closed_twice : closed 7 (run os two_new history).1 ≡ 2
unfolding run step close open_read_only move_assign
closed_twice = refl

run_balance_example :
    0 + opened 7 (run os two_new history).1
    ≡ closed 7 (run os two_new history).1
      + (held 7 (run os two_new history).0.left + held 7 (run os two_new history).0.right)
run_balance_example = run_balance os 7 history two_new

run-IsReadOnly_example : All IsReadOnly (run os two_new history).1
run-IsReadOnly_example = run-IsReadOnly os history two_new

device_of-IsExact_example : IsExact (device_of os window)
device_of-IsExact_example = device_of-IsExact os window refl

read_sound_example :
    (6 ∷ 7 ∷ [] ≡ bytes_at counting (2 ^ 20 + 6) 2)
    × (0 < 2)
    × ((window.partition_size ≡ 0) ⊎ (6 + 2 ≤ 4096))
unfolding read
read_sound_example =
    read_sound os counting window 6 2 (6 ∷ 7 ∷ []) os-IsFaithful refl (omega arith) refl
