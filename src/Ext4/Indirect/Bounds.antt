-- ===== src/Ext4/Indirect/Bounds.antt =====
-- The block map reads no pointer outside of an array, whatever the logical block.
use linux2win.Base.{
  ℕ, ◌+◌, ◌-◌, ◌*◌, ◌/◌, ◌%◌, ◌≤◌, ◌<◌, ◌≡◌, refl, ◌≢◌, ◌⊎◌, inl, inr, some, arith, Bytes, le_num,
  slice, Result, ok, failed, ◌>>=◌, length, ltb, ◌==◌, u32, Bool-cases, Option-cases,
}
use linux2win.Device.Interface.{Device, IsExact, size_limit}
use linux2win.Ext4.Layout.{inode, load, field_bytes}
use linux2win.Ext4.Reader.{Ext4Reader}
use linux2win.Ext4.Inode.{device_block}
use linux2win.Ext4.Indirect.{pointer_at, mapped, through_block, map_block, read_indirect_block}

-- `ok` with a block that is not 0, or `failed`: no undefined behaviour.
abbrev pub IsBlock : Result ℕ → Type 0
IsBlock m = ((p : ℕ) × (m ≡ ok p) × (p ≢ 0)) ⊎ (m ≡ failed)

pointer_in :
    (array : Bytes) (i : ℕ) → 4 * i + 4 ≤ length array → (p : ℕ) × (pointer_at array i ≡ ok p)
unfolding pointer_at load
pointer_in array i h = (le_num (slice (4 * i) 4 array), ground arith)

mapped-IsBlock : (array : Bytes) (i : ℕ) → 4 * i + 4 ≤ length array → IsBlock (mapped array i)
unfolding mapped
mapped-IsBlock array i h =
    let (p, e) = pointer_in array i h in
    elim (Bool-cases (p == 0)) [
      | inl zero_pointer ↦ inr (rw e (ground arith))
      | inr other ↦ inl (p, rw e (ground arith), ground arith)
    ]

pub device_block-length :
    (r : Ext4Reader) (d : Device) (block : ℕ) (bytes : Bytes)
    → r.device ≡ some d
    → IsExact d
    → r.block_size ≤ size_limit
    → device_block r block ≡ ok bytes
    → length bytes ≡ r.block_size
unfolding device_block
device_block-length r d block bytes hd exact small e =
    exact.block_fills block r.block_size small (ground arith)

device_block-cases :
    (r : Ext4Reader) (d : Device) (block : ℕ)
    → r.device ≡ some d
    → ((bytes : Bytes) × (device_block r block ≡ ok bytes)) ⊎ (device_block r block ≡ failed)
unfolding device_block
device_block-cases r d block hd = elim (Option-cases (d.read_block block r.block_size)) [
  | inl p ↦ inr (ground arith)
  | inr (bytes, p) ↦ inl (bytes, ground arith)
]

module _ (r : Ext4Reader) (d : Device) (hd : r.device ≡ some d) (exact : IsExact d)
    (small : r.block_size ≤ 65536) where
  through_block-IsBlock :
      (block i : ℕ) → 4 * i + 4 ≤ r.block_size → IsBlock (through_block r block i)
  unfolding through_block
  through_block-IsBlock block i h = elim (Bool-cases (block == 0)) [
    | inl hole ↦ inr (ground arith)
    | inr other ↦ elim (device_block-cases r d block hd) [
      | inl (bytes, e) ↦
          let full = device_block-length r d block bytes hd exact (omega arith) e in
          rw (other, e) (mapped-IsBlock bytes i (omega arith))
      | inr e ↦ inr (rw (other, e) refl)
    ]
  ]

  IsBlock-bind :
      (m : Result ℕ) (f : ℕ → Result ℕ) → IsBlock m → ((p : ℕ) → IsBlock (f p)) → IsBlock (m >>= f)
  IsBlock-bind m f (inl (p, e, _)) h = rw e (h p)
  IsBlock-bind m f (inr e) h = inr (rw e)

  index_in : (x n : ℕ) → x < n * n → (x / n < n) × (x % n < n)
  index_in x n h = (grind arith, grind arith)

  map_block-IsBlock :
      (direct : Bytes) (logical : ℕ) → length direct ≡ 60 → IsBlock (map_block r direct logical)
  unfolding map_block
  map_block-IsBlock direct logical full =
      let per_block = r.block_size / 4 in
      let double = logical - 12 - per_block in
      elim (Bool-cases (ltb logical 12)) [
        | inl near ↦ rw near (mapped-IsBlock direct logical (ground arith))
        | inr far ↦ elim (Bool-cases (ltb (logical - 12) per_block)) [
          | inl one ↦
              let (block, e) = pointer_in direct 12 (omega arith) in
              rw (far, one, e) (through_block-IsBlock block (logical - 12) (ground arith))
          | inr more ↦ elim (Bool-cases (ltb double (per_block * per_block % u32))) [
            | inl two ↦
                let (outer, e) = pointer_in direct 13 (omega arith) in
                let (row, column) = index_in double per_block (ground arith) in
                rw (far, more, two, e)
                  (IsBlock-bind (through_block r outer (double / per_block)) _
                    (through_block-IsBlock outer (double / per_block) (omega arith))
                    (λ inner. through_block-IsBlock inner (double % per_block) (omega arith)))
            | inr beyond ↦ inr (rw (far, more, beyond))
          ]
        ]
      ]

  -- On a device that fills its buffers and with blocks up to 64 KiB, the block map answers every
  -- logical block with a physical block other than 0 or with false: no pointer is read outside of
  -- `i_block` or of a block of pointers.
  pub read_indirect_block-IsBlock :
      (node_inode : Bytes) (logical : ℕ)
      → length (field_bytes inode "i_block" node_inode) ≡ 60
      → IsBlock (read_indirect_block r node_inode logical)
  unfolding read_indirect_block
  read_indirect_block-IsBlock node_inode logical full =
      map_block-IsBlock (field_bytes inode "i_block" node_inode) logical full
