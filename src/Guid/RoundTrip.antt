-- ===== src/Guid/RoundTrip.antt =====
-- `from_string` reads back what `to_string` prints.
use mathlib.Core.List.{append_assoc, append-nil}
use linux2win.Base.{
  ℕ, ◌+◌, ◌*◌, ◌%◌, ◌<◌, ◌≡◌, refl, sym, ap, ◌∙◌, some, [], ◌∷◌, ◌++◌, arith, Bytes, length, take,
  drop, slice, All, u16, u32, All-append, length-append, take-append_length, drop-append,
  take-append-drop,
}
use linux2win.Guid.{
  Guid, hex_text, hex_bytes, dash, to_string, clean, stoul, read_pairs, read_guid, from_string,
}
use linux2win.Guid.Digits.{
  IsHex, hex_text-IsHex, length-hex_text, clean-hex, clean-dash, stoul-hex_text,
}

abbrev IsByte : ℕ → Type 0
IsByte b = b < 256

-- The values that the four fields can take.
pub record IsGuid (g : Guid) : Type 0 where
  pub data1_fits : g.data1 < u32
  pub data2_fits : g.data2 < u16
  pub data3_fits : g.data3 < u16
  pub data4_length : length g.data4 ≡ 8
  pub data4_bytes : All IsByte g.data4

hex_bytes-IsHex : (bs : Bytes) → All IsHex (hex_bytes bs)
unfolding hex_bytes
hex_bytes-IsHex [] = tt
hex_bytes-IsHex (b ∷ bs) =
    All-append IsHex (hex_text 2 b) _ (hex_text-IsHex 2 b) (hex_bytes-IsHex bs)

length-hex_bytes : (bs : Bytes) → length (hex_bytes bs) ≡ 2 * length bs
unfolding hex_bytes
length-hex_bytes [] = omega arith
length-hex_bytes (b ∷ bs) =
    omega
      (arith, length-append (hex_text 2 b) (hex_bytes bs), length-hex_text 2 b, length-hex_bytes bs)

hex_bytes-append : (xs ys : Bytes) → hex_bytes (xs ++ ys) ≡ hex_bytes xs ++ hex_bytes ys
unfolding hex_bytes
hex_bytes-append [] ys = refl
hex_bytes-append (x ∷ xs) ys = simp (hex_bytes-append xs ys, append_assoc)

-- A piece of known length in the middle of a text.
slice-middle :
    (front piece back : Bytes) (at size : ℕ)
    → length front ≡ at
    → length piece ≡ size
    → slice at size (front ++ (piece ++ back)) ≡ piece
slice-middle front piece back at size ha hs =
    let place : at ≡ length front + 0 = omega arith in
    ap (λ n. take size (drop n (front ++ (piece ++ back)))) place
    ∙ ap (take size) (drop-append front (piece ++ back) 0)
    ∙ ap (λ n. take n (piece ++ back)) (sym hs)
    ∙ take-append_length piece back

read_pairs-hex_bytes :
    (front bs : Bytes) (i : ℕ)
    → length front ≡ 16 + i * 2
    → All IsByte bs
    → read_pairs (length bs) i (front ++ hex_bytes bs) ≡ some bs
unfolding read_pairs hex_bytes
read_pairs-hex_bytes front [] i h fits = refl
read_pairs-hex_bytes front (b ∷ bs) i h (small, fits) =
    let piece =
      slice-middle front (hex_text 2 b) (hex_bytes bs) (16 + i * 2) 2 h (length-hex_text 2 b) in
    let value : stoul (hex_text 2 b) ≡ some b = stoul-hex_text 1 b (omega arith) in
    let rest =
      read_pairs-hex_bytes (front ++ hex_text 2 b) bs (i + 1)
        (omega (arith, length-append front (hex_text 2 b), length-hex_text 2 b)) fits in
    let rest' : read_pairs (length bs) (i + 1) (front ++ (hex_text 2 b ++ hex_bytes bs)) ≡ some bs =
      rw append_assoc at rest in
    let whole : b % 256 ≡ b = omega arith in rw (piece, value, rest', whole) refl

-- The text of a GUID without its dashes.
abbrev digits_of : Guid → Bytes
digits_of g =
    hex_text 8 g.data1 ++ (hex_text 4 g.data2 ++ (hex_text 4 g.data3 ++ hex_bytes g.data4))

clean-piece :
    (piece rest : Bytes) → All IsHex piece → clean (piece ++ (dash ++ rest)) ≡ piece ++ clean rest
clean-piece piece rest h = clean-hex piece (dash ++ rest) h ∙ ap (◌++◌ piece) (clean-dash rest)

clean-nil : clean [] ≡ []
unfolding clean
clean-nil = refl

clean-last : (bs : Bytes) → clean (hex_bytes bs) ≡ hex_bytes bs
clean-last bs =
    ap clean (sym (append-nil (hex_bytes bs)))
    ∙ clean-hex (hex_bytes bs) [] (hex_bytes-IsHex bs)
    ∙ ap (◌++◌ (hex_bytes bs)) clean-nil
    ∙ append-nil (hex_bytes bs)

clean-to_string : (g : Guid) → clean (to_string g) ≡ digits_of g
unfolding to_string
clean-to_string g =
    let halves : hex_bytes (take 2 g.data4) ++ hex_bytes (drop 2 g.data4) ≡ hex_bytes g.data4 =
      sym (hex_bytes-append (take 2 g.data4) (drop 2 g.data4))
      ∙ ap hex_bytes (take-append-drop 2 g.data4) in
    simp (
      clean-piece (hex_text 8 g.data1) _ (hex_text-IsHex 8 g.data1),
      clean-piece (hex_text 4 g.data2) _ (hex_text-IsHex 4 g.data2),
      clean-piece (hex_text 4 g.data3) _ (hex_text-IsHex 4 g.data3),
      clean-piece (hex_bytes (take 2 g.data4)) _ (hex_bytes-IsHex (take 2 g.data4)),
      clean-last (drop 2 g.data4),
      halves,
    )

read_guid-digits : (g : Guid) → IsGuid g → read_guid (digits_of g) ≡ some g
unfolding read_guid
read_guid-digits g h =
    let a = hex_text 8 g.data1 in
    let b = hex_text 4 g.data2 in
    let c = hex_text 4 g.data3 in
    let d = hex_bytes g.data4 in
    let la = length-hex_text 8 g.data1 in
    let lb = length-hex_text 4 g.data2 in
    let lc = length-hex_text 4 g.data3 in
    let first : stoul (slice 0 8 (digits_of g)) ≡ some g.data1 =
      ap stoul (slice-middle [] a (b ++ (c ++ d)) 0 8 refl la)
      ∙ stoul-hex_text 7 g.data1 (omega (arith, h.data1_fits)) in
    let second : stoul (slice 8 4 (digits_of g)) ≡ some g.data2 =
      ap stoul (slice-middle a b (c ++ d) 8 4 la lb)
      ∙ stoul-hex_text 3 g.data2 (omega (arith, h.data2_fits)) in
    let third : stoul (slice 12 4 (digits_of g)) ≡ some g.data3 =
      ap (λ t. stoul (slice 12 4 t)) (sym (append_assoc a b (c ++ d)))
      ∙ ap stoul (slice-middle (a ++ b) c d 12 4 (omega (arith, length-append a b, la, lb)) lc)
      ∙ stoul-hex_text 3 g.data3 (omega (arith, h.data3_fits)) in
    let regroup : digits_of g ≡ (a ++ (b ++ c)) ++ d =
      sym (append_assoc a (b ++ c) d ∙ ap (◌++◌ a) (append_assoc b c d)) in
    let last : read_pairs 8 0 (digits_of g) ≡ some g.data4 =
      ap (read_pairs 8 0) regroup
      ∙ ap (λ n. read_pairs n 0 ((a ++ (b ++ c)) ++ d)) (sym h.data4_length)
      ∙ read_pairs-hex_bytes (a ++ (b ++ c)) g.data4 0
          (omega (arith, length-append a (b ++ c), length-append b c, la, lb, lc)) h.data4_bytes in
    rw (first, second, third, last) (ground (arith, h.data1_fits, h.data2_fits, h.data3_fits))

-- What `to_string` prints of a GUID whose fields are in range, `from_string` reads back as the same.
pub from_string-to_string : (g : Guid) → IsGuid g → from_string (to_string g) ≡ g
unfolding from_string
from_string-to_string g h =
    let long : length (digits_of g) ≡ 32 = omega (
      arith,
      length-append (hex_text 8 g.data1)
          (hex_text 4 g.data2 ++ (hex_text 4 g.data3 ++ hex_bytes g.data4)),
      length-append (hex_text 4 g.data2) (hex_text 4 g.data3 ++ hex_bytes g.data4),
      length-append (hex_text 4 g.data3) (hex_bytes g.data4),
      length-hex_text 8 g.data1,
      length-hex_text 4 g.data2,
      length-hex_text 4 g.data3,
      length-hex_bytes g.data4,
      h.data4_length,
    ) in
    rw (clean-to_string g, long, read_guid-digits g h) refl
