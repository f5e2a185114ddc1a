-- ===== src/Device/Window.antt =====
-- What `read` returns: bytes of the window and of nothing else, while the offsets do not wrap.
use linux2win.Base.{
  ℕ, zero, suc, ◌+◌, ◌-◌, ◌*◌, ◌/◌, ◌%◌, ◌^◌, ◌≤◌, ◌<◌, ◌≡◌, ◌⊎◌, inl, inr, refl, ap, ◌∙◌, true,
  false, some, [], ◌∷◌, arith, Bytes, length, take, drop, slice, u32, u64, length-take, length-drop,
  Option-cases,
}
use linux2win.Device.{Win32, BlockDevice, read, read_aligned, out_of_bounds}

-- `count` bytes of a disk from `position` on.
abbrev pub bytes_at : (ℕ → ℕ) → ℕ → ℕ → Bytes
bytes_at disk position zero = []
bytes_at disk position (suc n) = disk position ∷ bytes_at disk (suc position) n

-- `ReadFile` gives bytes of the disk, at most as many as asked for.
abbrev pub IsFaithful : Win32 → (ℕ → ℕ) → Type 0
IsFaithful os disk =
    (h position count : ℕ) (got : Bytes)
    → os.read_file h position count ≡ some got
    → (got ≡ bytes_at disk position (length got)) × (length got ≤ count)

-- The handle `h` is open on the disk: it can be moved to each position below 2 ^ 63, and `ReadFile`
-- gives all bytes asked for, from a multiple of the sector size and up to the end of the disk.
pub record IsDisk (os : Win32) (h : ℕ) (disk : ℕ → ℕ) (capacity : ℕ) : Type 0 where
  pub seeks : (position : ℕ) → position < 2 ^ 63 → os.set_file_pointer h position ≡ true
  pub reads :
      (position count : ℕ)
      → position % 512 ≡ 0
      → count % 512 ≡ 0
      → position + count ≤ capacity
      → os.read_file h position count ≡ some (bytes_at disk position count)

pub length-bytes_at : (disk : ℕ → ℕ) (p n : ℕ) → length (bytes_at disk p n) ≡ n
length-bytes_at disk p zero = refl
length-bytes_at disk p (suc n) = ap suc (length-bytes_at disk (suc p) n)

pub take-bytes_at :
    (disk : ℕ → ℕ) (k p n : ℕ) → k ≤ n → take k (bytes_at disk p n) ≡ bytes_at disk p k
take-bytes_at disk zero p n h = refl
take-bytes_at disk (suc k) p zero h = absurd (omega arith)
take-bytes_at disk (suc k) p (suc n) h =
    ap (◌∷◌ (disk p)) (take-bytes_at disk k (suc p) n (omega arith))

drop-bytes_at :
    (disk : ℕ → ℕ) (k p n : ℕ) → k ≤ n → drop k (bytes_at disk p n) ≡ bytes_at disk (p + k) (n - k)
drop-bytes_at disk zero p n h =
    let e : p ≡ p + 0 = omega arith in
    let e' : n ≡ n - 0 = omega arith in λ i. bytes_at disk (e i) (e' i)
drop-bytes_at disk (suc k) p zero h = absurd (omega arith)
drop-bytes_at disk (suc k) p (suc n) h =
    drop-bytes_at disk k (suc p) n (omega arith)
    ∙ (let e : suc p + k ≡ p + suc k = omega arith in
        let e' : n - k ≡ suc n - suc k = omega arith in λ i. bytes_at disk (e i) (e' i))

slice-bytes_at :
    (disk : ℕ → ℕ) (i k p n : ℕ)
    → i + k ≤ n
    → slice i k (bytes_at disk p n) ≡ bytes_at disk (p + i) k
slice-bytes_at disk i k p n h =
    ap (take k) (drop-bytes_at disk i p n (omega arith))
    ∙ take-bytes_at disk k (p + i) (n - i) (omega arith)

length-slice : (i k : ℕ) (xs : Bytes) → i + k ≤ length xs → length (slice i k xs) ≡ k
length-slice i k xs h = omega (arith, length-take k (drop i xs), length-drop i xs)

abbrev aligned_start : ℕ → ℕ
aligned_start absolute = absolute / 512 * 512

abbrev aligned_count : ℕ → ℕ → ℕ
aligned_count absolute size =
    ((absolute + size + 512 - 1) % u64 / 512 * 512 + u64 - aligned_start absolute) % u64 % u32

-- An aligned read that succeeds went to one `ReadFile`, whose answer was long enough.
read_aligned_inversion :
    (os : Win32) (h absolute size : ℕ) (out : Bytes)
    → read_aligned os h 512 absolute size ≡ some out
    → (got : Bytes) × (os.read_file h (aligned_start absolute) (aligned_count absolute size)
        ≡ some got)
      × ((absolute - aligned_start absolute + size) % u64 ≤ length got)
      × (out ≡ slice (absolute - aligned_start absolute) size got)
unfolding read_aligned
read_aligned_inversion os h absolute size out e =
    elim (Option-cases (os.read_file h (aligned_start absolute) (aligned_count absolute size))) [
      | inl p ↦ ground arith
      | inr (got, p) ↦ (got, p, ground arith, ground arith)
    ]

read_cases :
    (os : Win32) (d : BlockDevice) (offset size : ℕ) (out : Bytes)
    → read os d offset size ≡ some out
    → (h : ℕ) × (d.handle ≡ some h)
      × (read_aligned os h d.sector_size ((d.partition_offset + offset) % u64) size ≡ some out)
      × (0 < size)
      × (out_of_bounds d offset size ≡ false)
unfolding read
read_cases os d offset size out e = elim (Option-cases d.handle) [
  | inl p ↦ ground arith
  | inr (h, p) ↦ (h, p, ground arith, ground arith, ground arith)
]

-- A read that succeeds fills the whole buffer.
pub length-read :
    (os : Win32) (d : BlockDevice) (offset size : ℕ) (out : Bytes)
    → d.sector_size ≡ 512
    → size + 512 ≤ u64
    → read os d offset size ≡ some out
    → length out ≡ size
length-read os d offset size out hs hn e =
    let (h, _, r, _, _) = read_cases os d offset size out e in
    let absolute = (d.partition_offset + offset) % u64 in
    let r' : read_aligned os h 512 absolute size ≡ some out = rw hs at r in
    let (got, _, enough, eq) = read_aligned_inversion os h absolute size out r' in
    ap length eq ∙ length-slice (absolute - aligned_start absolute) size got (omega arith)

-- What a successful read gives are the bytes of the disk from `partition_offset + offset` on, the
-- request is not empty, and where the window has a size, it lies in it: with sectors of 512 bytes,
-- while the sums do not pass 2 ^ 64, if `ReadFile` gives bytes of the disk.
pub read_sound :
    (os : Win32) (disk : ℕ → ℕ) (d : BlockDevice) (offset size : ℕ) (out : Bytes)
    → IsFaithful os disk
    → d.sector_size ≡ 512
    → d.partition_offset + offset + size + 512 ≤ u64
    → read os d offset size ≡ some out
    → (out ≡ bytes_at disk (d.partition_offset + offset) size)
      × (0 < size)
      × ((d.partition_size ≡ 0) ⊎ (offset + size ≤ d.partition_size))
unfolding out_of_bounds
read_sound os disk d offset size out faithful hs hn e =
    let (h, _, r, positive, inside) = read_cases os d offset size out e in
    let absolute = (d.partition_offset + offset) % u64 in
    let r' : read_aligned os h 512 absolute size ≡ some out = rw hs at r in
    let (got, answer, enough, eq) = read_aligned_inversion os h absolute size out r' in
    let (true_bytes, _) =
      faithful h (aligned_start absolute) (aligned_count absolute size) got answer in
    let inner = absolute - aligned_start absolute in
    let start : aligned_start absolute + inner ≡ d.partition_offset + offset = omega arith in
    (
      eq
          ∙ ap (slice inner size) true_bytes
          ∙ slice-bytes_at disk inner size (aligned_start absolute) (length got) (omega arith)
          ∙ ap (λ p. bytes_at disk p size) start,
      positive,
      ground arith,
    )
