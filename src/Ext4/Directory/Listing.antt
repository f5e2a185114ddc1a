-- ===== src/Ext4/Directory/Listing.antt =====
-- The loop over the entries reads back a directory that is written out entry by entry.
use mathlib.Core.List.{append_assoc}
use mathlib.Core.Path.{subst₂}
use linux2win.Base.{
  ℕ, zero, suc, ◌+◌, ◌≤◌, ◌<◌, ◌≡◌, ◌≢◌, refl, ap, ◌∙◌, inl, inr, true, false, not, ◌&&◌, List, [],
  ◌∷◌, ◌++◌, arith, Bytes, ok, ◌>>=◌, length, All, take, replicate, slice, le_num, le_bytes, ltb,
  leb, ◌==◌, if◌then◌else◌, u16, u32, Bool-cases, length-append, length-replicate,
  take-append_length, drop-append,
}
use linux2win.Ext4.Layout.{dir_entry2, load, load_field}
use linux2win.Ext4.Reader.{Ext4Reader}
use linux2win.Ext4.Directory.{
  DirEntryInfo, info_of, is_dot, typed, named_entry, entry_here, parse_entries,
}

-- An entry as a volume holds it: number 0 marks a deleted one; `pad` bytes follow the name.
pub record RawEntry : Type 0 where
  pub number : ℕ
  pub type : ℕ
  pub name : Bytes
  pub pad : ℕ

abbrev pub rec_len : RawEntry → ℕ
rec_len e = 8 + length e.name + e.pad

pub record IsWritable (e : RawEntry) : Type 0 where
  pub number_fits : e.number < u32
  pub record_fits : rec_len e < u16
  pub name_fits : length e.name < 256
  pub typed_entry : e.type ≢ 0

abbrev pub tail_of : RawEntry → Bytes
tail_of e = length e.name ∷ e.type ∷ (e.name ++ replicate e.pad 0)

abbrev pub encode_entry : RawEntry → Bytes
encode_entry e = le_bytes 4 e.number ++ (le_bytes 2 (rec_len e) ++ tail_of e)

abbrev pub encode_entries : List RawEntry → Bytes
encode_entries [] = []
encode_entries (e ∷ es) = encode_entry e ++ encode_entries es

-- What a listing shows of an entry: not a deleted or nameless one, nor `.` and `..`.
abbrev pub shown : RawEntry → List DirEntryInfo
shown e =
    if not (e.number == 0) && ltb 0 (length e.name)
    then if is_dot e.name then [] else info_of e.number e.name e.type ∷ []
    else []

abbrev pub shown_all : List RawEntry → List DirEntryInfo
shown_all [] = []
shown_all (e ∷ es) = shown e ++ shown_all es

load_at :
    (front rest : Bytes) (k w : ℕ)
    → k + w ≤ length rest
    → load (front ++ rest) (length front + k) w ≡ ok (le_num (slice k w rest))
unfolding load
load_at front rest k w h =
    let room : leb (length front + k + w) (length (front ++ rest)) ≡ true =
      ground (arith, length-append front rest) in
    rw room (ap (λ bs. ok (le_num (take w bs))) (drop-append front rest k))

length-encode : (e : RawEntry) → length (encode_entry e) ≡ rec_len e
length-encode e =
    omega (arith, length-append e.name (replicate e.pad 0), length-replicate {0} e.pad (zero))

module _ (front back : Bytes) (e : RawEntry) where
  content : Bytes
  content = front ++ (encode_entry e ++ back)

  room : (k : ℕ) → k ≤ rec_len e → k ≤ length (encode_entry e ++ back)
  room k h = omega (arith, length-append (encode_entry e) back, length-encode e)

  number_field : e.number < u32 → load_field dir_entry2 "inode" content (length front) ≡ ok e.number
  unfolding load_field content
  number_field h =
      load_at front (encode_entry e ++ back) 0 4 (room 4 (omega arith)) ∙ ap ok (omega arith)

  length_field :
      rec_len e < u16 → load_field dir_entry2 "rec_len" content (length front) ≡ ok (rec_len e)
  unfolding load_field content
  length_field h =
      load_at front (encode_entry e ++ back) 4 2 (room 6 (omega arith)) ∙ ap ok (omega arith)

  name_len_field : load_field dir_entry2 "name_len" content (length front) ≡ ok (length e.name)
  unfolding load_field content
  name_len_field =
      load_at front (encode_entry e ++ back) 6 1 (room 7 (omega arith)) ∙ ap ok (omega arith)

  type_field : load_field dir_entry2 "file_type" content (length front) ≡ ok e.type
  unfolding load_field content
  type_field =
      load_at front (encode_entry e ++ back) 7 1 (room 8 (omega arith)) ∙ ap ok (omega arith)

  name_bytes : slice (length front + 8) (length e.name) content ≡ e.name
  unfolding content
  name_bytes =
      ap (take (length e.name)) (drop-append front (encode_entry e ++ back) 8)
      ∙ ap (take (length e.name)) (append_assoc e.name (replicate e.pad 0) back)
      ∙ take-append_length e.name (replicate e.pad 0 ++ back)

  here : (r : Ext4Reader) → IsWritable e → entry_here r content (length front) ≡ ok (shown e)
  unfolding entry_here named_entry typed
  here r w =
      let inside : leb (length front + 8 + length e.name) (length content) ≡ true =
        unfold content in
        ground (
          arith,
          length-append front (encode_entry e ++ back),
          room (8 + length e.name) (omega arith),
        ) in
      let plain : (e.type == 0) ≡ false = ground (arith, w.typed_entry) in
      rw (number_field w.number_fits, name_len_field)
        (elim (Bool-cases (not (e.number == 0) && ltb 0 (length e.name))) [
          | inl used ↦
              rw (used, inside, type_field, name_bytes)
                (elim (Bool-cases (is_dot e.name)) [
                  | inl dots ↦ rw dots refl
                  | inr real ↦ rw (real, plain) refl
                ])
          | inr unused ↦ rw unused refl
        ])

parse_step :
    (r : Ext4Reader) (front back : Bytes) (e : RawEntry) (fuel limit : ℕ)
    → IsWritable e
    → length front + 8 ≤ limit
    → parse_entries (suc fuel) r (content front back e) limit (length front) ≡ (
        parse_entries fuel r (content front back e) limit (length front + rec_len e) >>= λ later.
        ok (shown e ++ later))
unfolding parse_entries
parse_step r front back e fuel limit w h =
    let fits : leb (length front + 8) limit ≡ true = ground arith in
    let followed : (rec_len e == 0) ≡ false = ground arith in
    rw (fits, length_field front back e w.record_fits, followed, here front back e r w) refl

-- A directory of entries that fit their fields and have a type, written out one by one, is listed
-- back, with one round more than there are entries: each entry that is in use and has a name, in
-- order and with its inode, name and type, but not `.` and `..`, whatever comes in front.
pub parse_entries-encode :
    (r : Ext4Reader) (es : List RawEntry) (front : Bytes) (fuel : ℕ)
    → All IsWritable es
    → length es < fuel
    → parse_entries fuel r
        (front ++ encode_entries es)
        (length front + length (encode_entries es))
        (length front)
      ≡ ok (shown_all es)
unfolding content
parse_entries-encode r es front zero w h = absurd (omega arith)
parse_entries-encode r [] front (suc fuel) w h =
    unfold parse_entries in
    (let full : leb (length front + 8) (length front + 0) ≡ false = ground arith in rw full refl)
parse_entries-encode r (e ∷ es) front (suc fuel) w h =
    let limit = length front + length (encode_entries (e ∷ es)) in
    let next : length (front ++ encode_entry e) ≡ length front + rec_len e =
      omega (arith, length-append front (encode_entry e), length-encode e) in
    let limits : length (front ++ encode_entry e) + length (encode_entries es) ≡ limit =
      omega (arith, next, length-append (encode_entry e) (encode_entries es), length-encode e) in
    let ih = parse_entries-encode r es (front ++ encode_entry e) fuel w.1 (omega arith) in
    let later : parse_entries fuel r (front ++ (encode_entry e ++ encode_entries es)) limit
          (length front + rec_len e)
        ≡ ok (shown_all es) =
      subst₂ (λ bytes at. parse_entries fuel r bytes limit at ≡ ok (shown_all es))
        (append_assoc front (encode_entry e) (encode_entries es)) next (rw limits at ih) in
    parse_step r front (encode_entries es) e fuel limit w.0 (omega arith) ∙ rw later refl
