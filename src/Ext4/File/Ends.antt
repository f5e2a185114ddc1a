-- ===== src/Ext4/File/Ends.antt =====
-- When the copy loop of `read_file_data` ends, and what the whole call then returns.
use native.Mathlib.Nat.{mod-lt}
use linux2win.Base.{
  ℕ, zero, suc, ◌+◌, ◌-◌, ◌/◌, ◌%◌, ◌≤◌, ◌<◌, ◌≡◌, refl, inl, inr, ◌≢◌, false, [], ◌++◌, arith,
  Bytes, ok, >>=-eq-ok, or_else, Gives, subst, replicate, slice, ◌==◌, u32, u64, Bool-cases,
}
use linux2win.Ext4.Reader.{Ext4Reader}
use linux2win.Ext4.Inode.{device_block}
use linux2win.Ext4.File.{lookup_block, block_chunk, copy_loop, to_copy}
use linux2win.Ext4.File.Contents.{block_bytes}

-- Each of the `n` bytes from `offset` on lies in a block that the file's map leaves out or whose
-- lookup returns false, or in one that the device reads.
abbrev pub IsBacked : ℕ → Ext4Reader → Bytes → ℕ → ℕ → Type 0
IsBacked depth r node offset n =
    (j : ℕ) → j < n → Gives (block_bytes depth r node ((offset + j) / r.block_size % u32))

chunk_total :
    (depth : ℕ) (r : Ext4Reader) (node : Bytes) (logical start count : ℕ)
    → Gives (block_bytes depth r node logical)
    → Gives (block_chunk depth r node logical start count)
unfolding block_chunk block_bytes
chunk_total depth r node logical start count (block, e) =
    let (p, looked, read) = >>=-eq-ok (or_else (lookup_block depth r node logical) 0) _ e in
    elim (Bool-cases (p == 0)) [
      | inl hole ↦ (replicate count 0, rw (looked, hole) refl)
      | inr mapped ↦
          let whole : device_block r p ≡ ok block = rw mapped at read in
          (slice start count block, rw (looked, mapped, whole) refl)
    ]

pub IsBacked-later :
    (depth : ℕ) (r : Ext4Reader) (node : Bytes) (offset n k m : ℕ)
    → IsBacked depth r node offset n
    → k + m ≤ n
    → IsBacked depth r node (offset + k) m
IsBacked-later depth r node offset n k m backed fits j h =
    let place : offset + (k + j) ≡ offset + k + j = omega arith in
    subst (λ p. Gives (block_bytes depth r node (p / r.block_size % u32))) place
      (backed (k + j) (omega arith))

-- Below 4 GiB each round takes at least a byte, so the loop ends with as many rounds as bytes.
pub copy_loop-total :
    (fuel depth : ℕ) (r : Ext4Reader) (node : Bytes) (remaining offset : ℕ)
    → IsBacked depth r node offset remaining
    → 0 < r.block_size
    → remaining < u32
    → offset + remaining < u64
    → remaining < fuel
    → Gives (copy_loop fuel depth r node remaining offset)
unfolding copy_loop
copy_loop-total zero depth r node remaining offset backed pos small no_wrap enough =
    absurd (omega arith)
copy_loop-total (suc fuel) depth r node remaining offset backed pos small no_wrap enough =
    elim (Bool-cases (remaining == 0)) [
      | inl done ↦ ([], rw done refl)
      | inr more ↦
          let count = to_copy r.block_size remaining offset in
          let positive : 0 < remaining = ground arith in
          let here : offset + 0 ≡ offset = omega arith in
          let (chunk, first) =
            chunk_total depth r node (offset / r.block_size % u32) (offset % r.block_size) count (
              subst (λ p. Gives (block_bytes depth r node (p / r.block_size % u32))) here
                (backed 0 positive)) in
          let next : offset + count ≡ (offset + count) % u64 = omega arith in
          let (rest, second) =
            copy_loop-total fuel depth r node (remaining - count) ((offset + count) % u64)
              (subst (λ p. IsBacked depth r node p (remaining - count)) next
                (IsBacked-later depth r node offset remaining count (remaining - count) backed
                  (omega arith)))
              pos (omega arith) (omega arith) (omega (arith, mod-lt offset pos)) in
          (chunk ++ rest, rw (more, first, second) refl)
    ]

-- From 4 GiB on a round takes at most what is left over a multiple of 2 ^ 32: the loop gets to the
-- multiple and never past it.
pub copy_loop-endless :
    (fuel depth : ℕ) (r : Ext4Reader) (node : Bytes) (remaining offset : ℕ) (out : Bytes)
    → u32 ≤ remaining
    → copy_loop fuel depth r node remaining offset ≢ ok out
unfolding copy_loop
copy_loop-endless zero depth r node remaining offset out big e = cc
copy_loop-endless (suc fuel) depth r node remaining offset out big e =
    let count = to_copy r.block_size remaining offset in
    let more : (remaining == 0) ≡ false = ground arith in
    let (chunk, first, e') =
      >>=-eq-ok
        (block_chunk depth r node (offset / r.block_size % u32) (offset % r.block_size) count) _
        (rw more at e) in
    let (rest, second, last) =
      >>=-eq-ok (copy_loop fuel depth r node (remaining - count) ((offset + count) % u64)) _ e' in
    copy_loop-endless fuel depth r node (remaining - count) ((offset + count) % u64) rest
      (omega arith) second
