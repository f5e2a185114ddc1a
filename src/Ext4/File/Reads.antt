-- ===== src/Ext4/File/Reads.antt =====
-- `read_file_data` as a whole: the bytes of the file, up to 4 GiB in a call.
use linux2win.Base.{
  Gives, ◌↔◌, ℕ, ◌+◌, ◌-◌, ◌≤◌, ◌<◌, min, ◌≡◌, refl, ◌∙◌, inl, inr, ◌≢◌, true, false, some, [],
  arith, Bytes, ok, leb, ◌==◌, if◌then◌else◌, u32, u64, Bool-cases, subst,
}
use linux2win.Device.Interface.{Device, IsExact}
use linux2win.Ext4.Reader.{Ext4Reader}
use linux2win.Ext4.Reader.Mount.{IsValid, block_size_bounds}
use linux2win.Ext4.Inode.{read_inode}
use linux2win.Ext4.Indirect.Bounds.{device_block-length}
use linux2win.Ext4.File.{copy_loop, actual_size, file_size, read_file_data}
use linux2win.Ext4.File.Contents.{HasBytes, FillsBlocks, copy_loop-HasBytes}
use linux2win.Ext4.File.Ends.{IsBacked, copy_loop-total, copy_loop-endless}

fills_blocks :
    (r : Ext4Reader) (d : Device) → IsValid r → r.device ≡ some d → IsExact d → FillsBlocks r
fills_blocks r d valid hd exact physical bytes e =
    device_block-length r d physical bytes hd exact (omega (arith, block_size_bounds valid)) e

-- How many bytes of a request lie in the file.
abbrev pub available : Bytes → ℕ → ℕ → ℕ
available node offset size = min size (file_size node - offset)

call_ok :
    (fuel depth : ℕ) (r : Ext4Reader) (number offset size : ℕ) (node : Bytes)
    → r.mounted ≡ true
    → size ≢ 0
    → read_inode r number ≡ ok node
    → read_file_data fuel depth r number offset size ≡ (
        if leb (file_size node) offset
        then ok []
        else copy_loop fuel depth r node (actual_size size offset (file_size node)) offset)
unfolding read_file_data
call_ok fuel depth r number offset size node mounted positive e =
    let nonzero : (size == 0) ≡ false = ground arith in simp (mounted, nonzero, e)

cut :
    (node : Bytes) (offset size : ℕ)
    → offset + size < u64
    → leb (file_size node) offset ≡ false
    → actual_size size offset (file_size node) ≡ available node offset size
unfolding actual_size
cut node offset size h inside = ground arith

module _ (fuel depth : ℕ) (r : Ext4Reader) (d : Device) (number offset size : ℕ) (node : Bytes)
    (valid : IsValid r) (hd : r.device ≡ some d) (exact : IsExact d) (mounted : r.mounted ≡ true)
    (positive : size ≢ 0) (no_wrap : offset + size < u64)
    (found : read_inode r number ≡ ok node) where
  call_past_end :
      leb (file_size node) offset ≡ true → read_file_data fuel depth r number offset size ≡ ok []
  call_past_end past =
      call_ok fuel depth r number offset size node mounted positive found ∙ rw past refl

  call_inside :
      leb (file_size node) offset ≡ false
      → read_file_data fuel depth r number offset size
        ≡ copy_loop fuel depth r node (available node offset size) offset
  call_inside inside =
      call_ok fuel depth r number offset size node mounted positive found
      ∙ rw (inside, cut node offset size no_wrap inside) refl

  -- On a mounted reader that is well formed, whose device fills its buffers, for an inode that can be
  -- read and a request that is not empty and does not pass 2 ^ 64: a call that returns true has copied
  -- the bytes of the file from `offset` on, cut at its end and nothing else. Each is the byte of the
  -- block that the file's map gives for its place, or zero where the map gives none.
  pub read_file_data-HasBytes :
      (out : Bytes)
      → read_file_data fuel depth r number offset size ≡ ok out
      → HasBytes depth r node offset (available node offset size) out
  read_file_data-HasBytes out e = elim (Bool-cases (leb (file_size node) offset)) [
    | inl past ↦
        let empty : [] ≡ out = ground (arith, call_past_end past) in
        subst (HasBytes depth r node offset (available node offset size)) empty
          (ground arith, λ j h. absurd (ground arith))
    | inr inside ↦
        copy_loop-HasBytes fuel depth r node (available node offset size) offset out
          (fills_blocks r d valid hd exact) (omega (arith, block_size_bounds valid)) (omega arith)
          (rw (call_inside inside) at e)
  ]

  -- On a mounted reader that is well formed, whose device fills its buffers, for an inode that can
  -- be read and a request that is not empty and does not pass 2 ^ 64: a request of less than 4 GiB
  -- returns true, with one round of the loop for each byte at most, exactly if each byte of it that
  -- lies in the file is in a block that the file's map leaves out or whose lookup returns false, or
  -- in one that the device reads.
  pub read_file_data-total :
      size < u32
      → size < fuel
      → Gives (read_file_data fuel depth r number offset size)
        ↔ IsBacked depth r node offset (available node offset size)
  read_file_data-total small enough = (
    λ (out, e) j h. let (block, read, _) = (read_file_data-HasBytes out e).1 j h in (block, read),
    λ backed. elim (Bool-cases (leb (file_size node) offset)) [
      | inl past ↦ ([], call_past_end past)
      | inr inside ↦
          let (out, e) =
            copy_loop-total fuel depth r node (available node offset size) offset backed
              (omega (arith, block_size_bounds valid)) (omega arith) (omega arith) (omega arith) in
          (out, call_inside inside ∙ e)
    ],
  )

  -- On a mounted reader that is well formed, whose device fills its buffers, for an inode that can
  -- be read and a request that is not empty and does not pass 2 ^ 64: a request of which 4 GiB or
  -- more lie in the file never returns true, however many rounds the loop makes.
  pub read_file_data-endless :
      (out : Bytes)
      → u32 ≤ available node offset size
      → read_file_data fuel depth r number offset size ≢ ok out
  read_file_data-endless out big e =
      copy_loop-endless fuel depth r node (available node offset size) offset out big
        (rw (call_inside (ground arith)) at e)
