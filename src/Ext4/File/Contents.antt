-- ===== src/Ext4/File/Contents.antt =====
-- What the copy loop writes, block by block of the file.
use native.Mathlib.Nat.{div-add-mod', add-mul-div_right, div-eq_of_lt, mod-lt}
use mathlib.Core.Path.{subst₂}
use native.Mathlib.Decide.{dec_lt}
use linux2win.Base.{
  ℕ, zero, suc, ◌+◌, ◌-◌, ◌*◌, ◌/◌, ◌%◌, ◌≤◌, ◌<◌, ◌≡◌, refl, sym, ap, subst, ◌∙◌, inl, inr, false,
  some, [], ◌++◌, arith, Bytes, Result, ok, ◌>>=◌, >>=-eq-ok, or_else, length, drop, replicate,
  slice, get_elem?, ◌==◌, if◌then◌else◌, u32, u64, Bool-cases, length-append, length-take,
  length-drop, length-replicate, get_elem?-take, get_elem?-drop, get_elem?-append_left,
  get_elem?-append_right,
}
use linux2win.Ext4.Reader.{Ext4Reader}
use linux2win.Ext4.Inode.{device_block}
use linux2win.Ext4.File.{lookup_block, block_chunk, copy_loop, to_copy}

-- The whole of a logical block: the block that the map gives, or zeros where it gives none.
unfoldable pub block_bytes : ℕ → Ext4Reader → Bytes → ℕ → Result Bytes
block_bytes depth r node logical = do
  physical ← or_else (lookup_block depth r node logical) 0
  if physical == 0 then ok (replicate r.block_size 0) else device_block r physical

-- `n` bytes from `offset` on are those of the blocks they lie in.
abbrev pub HasBytes : ℕ → Ext4Reader → Bytes → ℕ → ℕ → Bytes → Type 0
HasBytes depth r node offset n out =
    (length out ≡ n)
    × ((j : ℕ)
        → j < n
        → (block : Bytes) × (block_bytes depth r node ((offset + j) / r.block_size % u32)
            ≡ ok block)
          × (get_elem? out j ≡ get_elem? block ((offset + j) % r.block_size)))

abbrev pub FillsBlocks : Ext4Reader → Type 0
FillsBlocks r =
    (physical : ℕ) (bytes : Bytes)
    → device_block r physical ≡ ok bytes
    → length bytes ≡ r.block_size

get_elem?-replicate {ℓ} :
    {A : Type ℓ} (n i : ℕ) (a : A) → i < n → get_elem? (replicate n a) i ≡ some a
get_elem?-replicate zero i a h = elim h [ ]
get_elem?-replicate (suc n) zero a h = refl
get_elem?-replicate (suc n) (suc i) a h = get_elem?-replicate n i a (omega arith)

same_block :
    (offset j size : ℕ)
    → offset % size + j < size
    → ((offset + j) / size ≡ offset / size) × ((offset + j) % size ≡ offset % size + j)
same_block offset j size h =
    let split : offset + j ≡ (offset % size + j) + offset / size * size =
      omega (arith, div-add-mod' offset size) in
    let quotient : (offset + j) / size ≡ offset / size =
      ap (λ n. n / size) split
      ∙ add-mul-div_right (offset % size + j) (offset / size) (omega arith)
      ∙ omega (arith, div-eq_of_lt h) in
    (
      quotient,
      omega (
        arith,
        div-add-mod' (offset + j) size,
        div-add-mod' offset size,
        ap (λ (n : ℕ). n * size) quotient,
      ),
    )

-- A chunk is the part of its block that was asked for.
abbrev IsPart : ℕ → Ext4Reader → Bytes → ℕ → ℕ → ℕ → Bytes → Type 0
IsPart depth r node logical start count chunk =
    (length chunk ≡ count)
    × ((block : Bytes) × (block_bytes depth r node logical ≡ ok block)
        × ((j : ℕ) → j < count → get_elem? chunk j ≡ get_elem? block (start + j)))

slice-get_elem? :
    (start count : ℕ) (block : Bytes) (j : ℕ)
    → j < count
    → get_elem? (slice start count block) j ≡ get_elem? block (start + j)
slice-get_elem? start count block j h =
    get_elem?-take count j (drop start block) h ∙ get_elem?-drop start j block

chunk-IsPart :
    (depth : ℕ) (r : Ext4Reader) (node : Bytes) (logical start count : ℕ) (chunk : Bytes)
    → FillsBlocks r
    → start + count ≤ r.block_size
    → block_chunk depth r node logical start count ≡ ok chunk
    → IsPart depth r node logical start count chunk
unfolding block_chunk block_bytes
chunk-IsPart depth r node logical start count chunk fills fits e =
    let (physical, place, rest) = >>=-eq-ok (or_else (lookup_block depth r node logical) 0) _ e in
    elim (Bool-cases (physical == 0)) [
      | inl hole ↦
          let zeros : replicate count 0 ≡ chunk = ground arith in
          subst (IsPart depth r node logical start count) zeros (
            length-replicate count 0,
            (
              replicate r.block_size 0,
              rw (place, hole) refl,
              λ j h.
                  get_elem?-replicate count j 0 h
                  ∙ sym (get_elem?-replicate r.block_size (start + j) 0 (omega arith)),
            ),
          )
      | inr mapped ↦
          let (block, read, last) =
            >>=-eq-ok (device_block r physical) (λ b. ok (slice start count b)) {b = chunk}
              (ground arith) in
          let full : length block ≡ r.block_size = fills physical block read in
          let part : slice start count block ≡ chunk = ground arith in
          subst (IsPart depth r node logical start count) part (
            omega (arith, length-take count (drop start block), length-drop start block),
            (block, rw (place, mapped) read, slice-get_elem? start count block),
          )
    ]

-- A chunk in front of bytes of the file, both from the right places.
HasBytes-append :
    (depth : ℕ) (r : Ext4Reader) (node : Bytes) (offset count n : ℕ) (chunk rest : Bytes)
    → offset % r.block_size + count ≤ r.block_size
    → IsPart depth r node (offset / r.block_size % u32) (offset % r.block_size) count chunk
    → HasBytes depth r node (offset + count) n rest
    → HasBytes depth r node offset (count + n) (chunk ++ rest)
HasBytes-append depth r node offset count n chunk rest fits (full, (block, read, bytes))
      (long, later) =
    (
      omega (arith, length-append chunk rest),
      λ j h. elim (dec_lt j count) [
        | yes inside ↦
            let (quotient, remainder) = same_block offset j r.block_size (omega arith) in
            (
              block,
              ap (λ q. block_bytes depth r node (q % u32)) quotient ∙ read,
              get_elem?-append_left chunk rest j (omega arith)
                  ∙ bytes j inside
                  ∙ ap (get_elem? block) (sym remainder),
            )
        | no outside ↦
            let k = j - count in
            let (other, place, value) = later k (omega arith) in
            let index : offset + count + k ≡ offset + j = omega arith in
            (
              other,
              ap (λ q. block_bytes depth r node (q / r.block_size % u32)) (sym index) ∙ place,
              ap (get_elem? (chunk ++ rest)) (let e : j ≡ length chunk + k = omega arith in e)
                  ∙ get_elem?-append_right chunk rest k
                  ∙ value
                  ∙ ap (λ q. get_elem? other (q % r.block_size)) index,
            )
      ],
    )

-- A round of the loop that succeeds.
copy_round :
    (fuel depth : ℕ) (r : Ext4Reader) (node : Bytes) (remaining offset : ℕ) (out : Bytes)
    → (remaining == 0) ≡ false
    → copy_loop (suc fuel) depth r node remaining offset ≡ ok out
    → let count = to_copy r.block_size remaining offset in
      (chunk : Bytes) × (rest : Bytes) × (block_chunk depth r node
          (offset / r.block_size % u32)
          (offset % r.block_size)
          count
        ≡ ok chunk)
      × (copy_loop fuel depth r node (remaining - count) ((offset + count) % u64) ≡ ok rest)
      × ((chunk ++ rest) ≡ out)
unfolding copy_loop
copy_round fuel depth r node remaining offset out more e =
    let count = to_copy r.block_size remaining offset in
    let (chunk, first, e') =
      >>=-eq-ok
        (block_chunk depth r node (offset / r.block_size % u32) (offset % r.block_size) count) _
        (rw more at e) in
    let (rest, second, last) =
      >>=-eq-ok (copy_loop fuel depth r node (remaining - count) ((offset + count) % u64)) _ e' in
    (chunk, rest, first, second, ground arith)

-- The copy loop writes the bytes of the file from `offset` on, as many as are left.
pub copy_loop-HasBytes :
    (fuel depth : ℕ) (r : Ext4Reader) (node : Bytes) (remaining offset : ℕ) (out : Bytes)
    → FillsBlocks r
    → 0 < r.block_size
    → offset + remaining < u64
    → copy_loop fuel depth r node remaining offset ≡ ok out
    → HasBytes depth r node offset remaining out
unfolding copy_loop
copy_loop-HasBytes zero depth r node remaining offset out fills pos fits e = ground arith
copy_loop-HasBytes (suc fuel) depth r node remaining offset out fills pos fits e =
    elim (Bool-cases (remaining == 0)) [
      | inl done ↦
          let empty : [] ≡ out = ground arith in
          let none_left : 0 ≡ remaining = ground arith in
          subst₂ (HasBytes depth r node offset) none_left empty (refl, λ j h. elim h [ ])
      | inr more ↦
          let count = to_copy r.block_size remaining offset in
          let (chunk, rest, first, second, whole) =
            copy_round fuel depth r node remaining offset out more e in
          let within : offset % r.block_size + count ≤ r.block_size =
            omega (arith, mod-lt offset pos) in
          let part =
            chunk-IsPart depth r node (offset / r.block_size % u32) (offset % r.block_size) count
              chunk fills within first in
          let place : (offset + count) % u64 ≡ offset + count = omega arith in
          let later =
            copy_loop-HasBytes fuel depth r node (remaining - count) (offset + count) rest fills pos
              (omega arith) (rw place at second) in
          let total : count + (remaining - count) ≡ remaining = omega arith in
          subst₂ (HasBytes depth r node offset) total whole (
            HasBytes-append depth r node offset count (remaining - count) chunk rest within part
              later)
    ]
