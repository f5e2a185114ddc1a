-- ===== src/Device.antt =====
-- include/linux2win/block_device.hpp and src/fs/block_device.cpp: a window, opened read only, on a
-- disk or partition. The calls of Win32 are a parameter. A null buffer is not modelled: every
-- caller passes one that holds `size` bytes.
pub mod Interface
pub mod Handles
pub mod Window
mod Runs
use linux2win.Base.{
  ℕ, ◌+◌, ◌-◌, ◌*◌, ◌/◌, ◌%◌, ◌^◌, Bool, true, false, ◌&&◌, Option, none, some, List, [], ◌∷◌, ◌++◌,
  Bytes, length, slice, ltb, ◌==◌, if◌then◌else◌, is_some, u32, u64, not,
}

-- The access that `CreateFileW` is asked for.
pub data Access : Type 0 where
  generic_read generic_write : Access

-- `CreateFileW` answers `none` for INVALID_HANDLE_VALUE; its flag says whether
-- FILE_FLAG_NO_BUFFERING is asked for. `read_file handle position count` is `ReadFile` after
-- `SetFilePointerEx`: the bytes that it put into the buffer, or `none` for FALSE.
pub record Win32 : Type 0 where
  pub create_file : Bytes → Access → Bool → Option ℕ
  pub set_file_pointer : ℕ → ℕ → Bool
  pub read_file : ℕ → ℕ → ℕ → Option Bytes

-- The calls that open or close a handle, in order.
pub data Call : Type 0 where
  creates : Access → Bool → Option ℕ → Call
  closes : ℕ → Call

pub record BlockDevice : Type 0 where
  pub handle : Option ℕ
  pub device_path : Bytes
  pub partition_offset : ℕ
  pub partition_size : ℕ
  pub sector_size : ℕ

abbrev pub new_device : BlockDevice
new_device = record {
  handle = none;
  device_path = [];
  partition_offset = 0;
  partition_size = 0;
  sector_size = 512;
}

unfoldable pub is_open : BlockDevice → Bool
is_open d = is_some d.handle

-- Also the destructor.
unfoldable pub close : BlockDevice → BlockDevice × List Call
close d = elim d.handle [ none ↦ (d, []) | some h ↦ (record d { handle = none }, closes h ∷ []) ]

-- The two tries of `CreateFileW`: unbuffered, then buffered.
create : Win32 → Bytes → Option ℕ × List Call
create os path =
    let first = os.create_file path generic_read true in
    let second = os.create_file path generic_read false in
    elim first [
      | some h ↦ (some h, creates generic_read true (some h) ∷ [])
      | none ↦ (second, creates generic_read true none ∷ creates generic_read false second ∷ [])
    ]

unfoldable pub open_read_only : Win32 → BlockDevice → Bytes → ℕ → ℕ → BlockDevice × List Call × Bool
unfolding close create
open_read_only os d path offset size =
    let (closed, before) = close d in
    let (opened, calls) = create os path in
    elim opened [
      | none ↦ (record closed { handle = none }, before ++ calls, false)
      | some h ↦ (
        record {
          handle = some h;
          device_path = path;
          partition_offset = offset;
          partition_size = size;
          sector_size = 512;
        },
        before ++ calls,
        true,
      )
    ]

-- The moved-from device keeps its window and loses its handle; its path is moved away.
abbrev moved_from : BlockDevice → BlockDevice
moved_from other = record other { handle = none; device_path = [] }

-- `BlockDevice a(std::move(other))`: the new device and `other`.
unfoldable pub move_construct : BlockDevice → BlockDevice × BlockDevice
move_construct other = (other, moved_from other)

-- `d = std::move(other)` for two different devices.
unfoldable pub move_assign : BlockDevice → BlockDevice → BlockDevice × BlockDevice × List Call
unfolding close
move_assign d other = let (_, calls) = close d in (other, moved_from other, calls)

-- The sectors that hold the bytes from `start` on: `ReadFile` takes its count as a DWORD. The buffer
-- of `aligned_size` bytes is not modelled: its allocation throws where the memory is not there.
read_aligned : Win32 → ℕ → ℕ → ℕ → ℕ → Option Bytes
read_aligned os h sector absolute size =
    let aligned_start = absolute / sector * sector in
    let inner = absolute - aligned_start in
    let aligned_end = (absolute + size + sector - 1) % u64 / sector * sector in
    let aligned_size = (aligned_end + u64 - aligned_start) % u64 in
    if not (os.set_file_pointer h aligned_start)
    then none
    else elim (os.read_file h aligned_start (aligned_size % u32)) [
      | none ↦ none
      | some got ↦
          if ltb (length got) ((inner + size) % u64) then none else some (slice inner size got)
    ]

-- The bound is tested with the sum as it wraps in 64 bits.
out_of_bounds : BlockDevice → ℕ → ℕ → Bool
out_of_bounds d offset size = ltb 0 d.partition_size && ltb d.partition_size ((offset + size) % u64)

unfoldable pub read : Win32 → BlockDevice → ℕ → ℕ → Option Bytes
unfolding read_aligned out_of_bounds
read os d offset size = elim d.handle [
  | none ↦ none
  | some h ↦
      if size == 0
      then none
      else if out_of_bounds d offset size
      then none
      else read_aligned os h d.sector_size ((d.partition_offset + offset) % u64) size
]

unfoldable pub read_block : Win32 → BlockDevice → ℕ → ℕ → Option Bytes
unfolding read
read_block os d index block_size = read os d (index * block_size % u64) block_size

-- Refused, whatever the arguments; the last error is ERROR_ACCESS_DENIED.
pub write : BlockDevice → ℕ → Bytes → BlockDevice × Bool
write d offset bytes = (d, false)
