-- ===== src/Device/Interface.antt =====
-- What src/fs/ext4_reader.cpp uses of a `BlockDevice`: whether it is open and its two reads, with
-- the law that a read fills the buffer.
use linux2win.Base.{ℕ, ◌*◌, ◌%◌, ◌^◌, ◌≤◌, ◌≡◌, Bool, Option, some, arith, Bytes, length, u64}
use linux2win.Device.{Win32, BlockDevice, is_open, read, read_block}
use linux2win.Device.Window.{length-read}

pub record Device : Type 0 where
  pub opened : Bool
  pub read : ℕ → ℕ → Option Bytes
  pub read_block : ℕ → ℕ → Option Bytes

abbrev pub size_limit : ℕ
size_limit = 2 ^ 63

pub record IsExact (d : Device) : Type 0 where
  pub read_fills :
      (offset size : ℕ) {out : Bytes}
      → size ≤ size_limit
      → d.read offset size ≡ some out
      → length out ≡ size
  pub block_fills :
      (index size : ℕ) {out : Bytes}
      → size ≤ size_limit
      → d.read_block index size ≡ some out
      → length out ≡ size

abbrev pub device_of : Win32 → BlockDevice → Device
device_of os d = record {
  opened = is_open d;
  read = λ offset size. read os d offset size;
  read_block = λ index size. read_block os d index size;
}

-- A block device whose sector size is the one that `open_read_only` sets fills every buffer.
pub device_of-IsExact :
    (os : Win32) (d : BlockDevice) → d.sector_size ≡ 512 → IsExact (device_of os d)
unfolding read_block
device_of-IsExact os d hs = record {
  read_fills = λ offset size {out} h e. length-read os d offset size out hs (omega arith) e;
  block_fills =
      λ index size {out} h e. length-read os d (index * size % u64) size out hs (omega arith) e;
}
