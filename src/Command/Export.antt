-- ===== src/Command/Export.antt =====
-- The copy loop of `export`: what it writes is the file.
use linux2win.Base.{
  ℕ, zero, suc, ◌+◌, ◌-◌, ◌<◌, ◌≤◌, ◌≡◌, ◌≢◌, refl, sym, ap, ◌∙◌, subst, inl, inr, true, some, List,
  [], ◌∷◌, ◌++◌, arith, Bytes, ok, min, ◌/◌, ◌%◌, ◌>>=◌, Bool-cases, length, length-append,
  get_elem?, get_elem?-append_left, get_elem?-append_right, ltb, u32, u64,
}
use native.Mathlib.Decide.{dec_lt}
use linux2win.Device.Interface.{Device, IsExact}
use linux2win.Ext4.Reader.{Ext4Reader}
use linux2win.Ext4.Reader.Mount.{IsValid}
use linux2win.Ext4.Inode.{read_inode}
use linux2win.Ext4.File.{file_size, read_file_data}
use linux2win.Ext4.File.Contents.{HasBytes, block_bytes}
use linux2win.Ext4.File.Ends.{IsBacked, IsBacked-later}
use linux2win.Ext4.File.Reads.{available, read_file_data-HasBytes, read_file_data-total}
use linux2win.Ext4.Path.{lookup_path, read_file_by_path}
use linux2win.Command.{export_loop}

-- What is in the destination after the writes.
abbrev pub gather : List Bytes → Bytes
gather [] = []
gather (chunk ∷ chunks) = chunk ++ gather chunks

HasBytes-concat :
    (depth : ℕ) (r : Ext4Reader) (node : Bytes) (offset m n : ℕ) (front back : Bytes)
    → HasBytes depth r node offset m front
    → HasBytes depth r node (offset + m) n back
    → HasBytes depth r node offset (m + n) (front ++ back)
HasBytes-concat depth r node offset m n front back (full, bytes) (rest, later) = (
  omega (arith, length-append front back),
  λ j h. elim (dec_lt j m) [
    | yes inside ↦
        let (block, read, same) = bytes j inside in
        (block, read, get_elem?-append_left front back j (omega arith) ∙ same)
    | no outside ↦
        let (block, read, same) = later (j - m) (omega arith) in
        let place : offset + m + (j - m) ≡ offset + j = omega arith in
        let index : length front + (j - m) ≡ j = omega arith in
        (
          block,
          ap (λ p. block_bytes depth r node (p / r.block_size % u32)) (sym place) ∙ read,
          ap (get_elem? (front ++ back)) (sym index)
              ∙ get_elem?-append_right front back (j - m)
              ∙ same
              ∙ ap (λ p. get_elem? block (p % r.block_size)) place,
        )
  ],
)

module _ (fuel depth : ℕ) (r : Ext4Reader) (d : Device) (path : Bytes) (number : ℕ) (node : Bytes)
    (valid : IsValid r) (hd : r.device ≡ some d) (exact : IsExact d) (mounted : r.mounted ≡ true)
    (looked : lookup_path fuel depth r path ≡ ok number) (found : read_inode r number ≡ ok node)
    (backed : IsBacked depth r node 0 (file_size node)) (enough : 65536 < fuel)
    (small : file_size node < u64) where
  -- One read of the loop.
  reads_chunk :
      (offset count : ℕ)
      → 0 < count
      → count ≤ 65536
      → offset + count ≤ file_size node
      → (b : ℕ) × (bs : Bytes) × (read_file_by_path fuel depth r path offset count ≡ ok (b ∷ bs))
        × HasBytes depth r node offset count (b ∷ bs)
  unfolding read_file_by_path
  reads_chunk offset count positive few inside =
      let nonzero : count ≢ 0 = λ e. omega arith in
      let from_start : 0 + offset ≡ offset = omega arith in
      let (out, read) =
        (read_file_data-total fuel depth r d number offset count node valid hd exact mounted nonzero
            (omega arith) found (omega arith) (omega arith)).1
          (subst (λ p. IsBacked depth r node p (available node offset count)) from_start
            (IsBacked-later depth r node 0 (file_size node) offset (available node offset count)
              backed (omega arith))) in
      let all : available node offset count ≡ count = omega arith in
      let bytes =
        subst (λ n. HasBytes depth r node offset n out) all
          (read_file_data-HasBytes fuel depth r d number offset count node valid hd exact mounted
            nonzero (omega arith) found out read) in
      filled out (ap (λ m. m >>= λ n. read_file_data fuel depth r n offset count) looked ∙ read)
        bytes
    where
      filled :
          (out : Bytes)
          → read_file_by_path fuel depth r path offset count ≡ ok out
          → HasBytes depth r node offset count out
          → (b : ℕ) × (bs : Bytes) × (read_file_by_path fuel depth r path offset count
              ≡ ok (b ∷ bs))
            × HasBytes depth r node offset count (b ∷ bs)
      filled [] read bytes = absurd (omega (arith, bytes.0))
      filled (b ∷ bs) read bytes = (b, bs, read, bytes)

  -- On a mounted reader that is well formed and whose device fills its buffers, with fuel for more
  -- than 64 KiB at a time, for a path that leads to an inode of less than 2 ^ 64 bytes, each of which
  -- is in a block that the file's map leaves out or whose lookup returns false, or in one that the
  -- device reads: the copy loop of `export`, from an offset in the file, comes back with one round
  -- more than there are bytes left, and all of its writes together are the rest of the file, each byte
  -- from its place.
  pub export_loop-HasBytes :
      (rounds offset : ℕ)
      → file_size node - offset < rounds
      → (chunks : List Bytes) × (export_loop fuel depth rounds r path (file_size node) offset
          ≡ ok chunks)
        × HasBytes depth r node offset (file_size node - offset) (gather chunks)
  unfolding export_loop
  export_loop-HasBytes zero offset h = absurd (omega arith)
  export_loop-HasBytes (suc rounds) offset h = elim (Bool-cases (ltb offset (file_size node))) [
    | inr ended ↦
        let past : file_size node - offset ≡ 0 = ground arith in
        (
          [],
          rw ended refl,
          subst (λ n. HasBytes depth r node offset n []) (sym past) (refl, λ j h. elim h [ ]),
        )
    | inl more ↦
        let inside : offset < file_size node = ground arith in
        let count = min 65536 (file_size node - offset) in
        let (b, bs, read, bytes) =
          reads_chunk offset count (omega arith) (omega arith) (omega arith) in
        let full : length (b ∷ bs) ≡ count = bytes.0 in
        let (chunks, ran, rest) =
          export_loop-HasBytes rounds (offset + length (b ∷ bs)) (omega (arith, full)) in
        let left : count + (file_size node - (offset + length (b ∷ bs))) ≡ file_size node - offset =
          omega (arith, full) in
        (
          (b ∷ bs) ∷ chunks,
          rw more (rw read (rw ran refl)),
          subst (λ n. HasBytes depth r node offset n ((b ∷ bs) ++ gather chunks)) left
              (HasBytes-concat depth r node offset count
                (file_size node - (offset + length (b ∷ bs))) (b ∷ bs) (gather chunks) bytes
                (subst
                  (λ k.
                    HasBytes depth r node (offset + k) (file_size node - (offset + length (b ∷ bs)))
                      (gather chunks))
                  full rest)),
        )
  ]
