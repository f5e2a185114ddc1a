-- ===== src/Guid/Digits.antt =====
-- A number that is printed in hexadecimal digits is read back by `std::stoul`.
use native.Mathlib.Nat.{pow-suc}
use linux2win.Base.{
  ℕ, zero, suc, ◌+◌, ◌*◌, ◌/◌, ◌%◌, ◌^◌, ◌<◌, ◌≡◌, refl, ap, ◌∙◌, inl, inr, true, false, some, [],
  ◌∷◌, ◌++◌, arith, Bytes, length, All, ◌==◌, is_some, All-append, length-append, Option-cases,
}
use linux2win.Guid.{
  hex_digit, hex_text, dash, clean, hex_value, read_digits, read_number, read_prefixed, is_space,
  stoul,
}

abbrev pub IsHex : ℕ → Type 0
IsHex c = is_some (hex_value c) ≡ true

digit-hex : (v : ℕ) → v < 16 → hex_value (hex_digit v) ≡ some v
digit-hex v h = ground arith

pub hex_text-IsHex : (w n : ℕ) → All IsHex (hex_text w n)
unfolding hex_text
hex_text-IsHex zero n = tt
hex_text-IsHex (suc w) n =
    All-append IsHex (hex_text w (n / 16)) _ (hex_text-IsHex w (n / 16))
      (ground (arith, digit-hex (n % 16)), tt)

pub length-hex_text : (w n : ℕ) → length (hex_text w n) ≡ w
unfolding hex_text
length-hex_text zero n = refl
length-hex_text (suc w) n = omega (
  arith,
  length-append (hex_text w (n / 16)) (hex_digit (n % 16) ∷ []),
  length-hex_text w (n / 16),
)

pub clean-hex : (xs rest : Bytes) → All IsHex xs → clean (xs ++ rest) ≡ xs ++ clean rest
unfolding clean
clean-hex [] rest h = refl
clean-hex (c ∷ cs) rest (hc, h) = ground (arith, clean-hex cs rest h)

pub clean-dash : (rest : Bytes) → clean (dash ++ rest) ≡ clean rest
unfolding clean
clean-dash rest = refl

read_digits-snoc :
    (acc : ℕ) (xs : Bytes) (v : ℕ)
    → All IsHex xs
    → v < 16
    → read_digits acc (xs ++ (hex_digit v ∷ [])) ≡ read_digits acc xs * 16 + v
unfolding read_digits
read_digits-snoc acc [] v h small = ground (arith, digit-hex v small)
read_digits-snoc acc (c ∷ cs) v (hc, h) small =
    let e : (x : ℕ) → read_digits x (cs ++ (hex_digit v ∷ [])) ≡ read_digits x cs * 16 + v =
      λ x. read_digits-snoc x cs v h small in
    elim (Option-cases (hex_value c)) [
      | inl p ↦ ground arith
      | inr (x, p) ↦ rw (p, read_digits) (e (acc * 16 + x))
    ]

read_digits-hex_text :
    (w acc n : ℕ) → n < 16 ^ w → read_digits acc (hex_text w n) ≡ acc * 16 ^ w + n
unfolding hex_text
read_digits-hex_text zero acc n h = unfold read_digits in omega arith
read_digits-hex_text (suc w) acc n h =
    let power : 16 ^ suc w ≡ 16 ^ w * 16 = pow-suc 16 w in
    omega (
      arith,
      power,
      ap (λ (p : ℕ). acc * p) power,
      read_digits-snoc acc (hex_text w (n / 16)) (n % 16) (hex_text-IsHex w (n / 16)) (omega arith),
      read_digits-hex_text w acc (n / 16) (omega (arith, power)),
    )

hex_plain : (c : ℕ) → IsHex c → (is_space c ≡ false) × ((c == b'+') ≡ false) × ((c == b'x') ≡ false)
hex_plain c h = (ground arith, ground arith, ground arith)

read_number-hex :
    (c : ℕ) (cs : Bytes) → IsHex c → read_number (c ∷ cs) ≡ some (read_digits 0 (c ∷ cs))
unfolding read_number read_digits
read_number-hex c cs h = elim (Option-cases (hex_value c)) [
  | inl p ↦ ground arith
  | inr (v, p) ↦
      let start : v ≡ 0 * 16 + v = omega arith in
      rw (p, read_number, read_digits) (ap (λ n. some (read_digits n cs)) start)
]

-- On digits alone the prefix, the sign and white space play no part.
stoul-hex :
    (c : ℕ) (cs : Bytes) → All IsHex (c ∷ cs) → stoul (c ∷ cs) ≡ some (read_digits 0 (c ∷ cs))
unfolding stoul read_prefixed
stoul-hex c [] (hc, h) =
    let (space, plus, _) = hex_plain c hc in rw (space, plus) (read_number-hex c [] hc)
stoul-hex c (d ∷ cs) (hc, (hd, h)) =
    let (space, plus, _) = hex_plain c hc in
    let (_, _, prefix) = hex_plain d hd in
    rw (space, plus, prefix) (ground (arith, read_number-hex c (d ∷ cs) hc))

pub stoul-hex_text : (w n : ℕ) → n < 16 ^ suc w → stoul (hex_text (suc w) n) ≡ some n
stoul-hex_text w n h =
    from_digits (hex_text (suc w) n) (length-hex_text (suc w) n) (hex_text-IsHex (suc w) n)
    ∙ ap some (omega (arith, read_digits-hex_text (suc w) 0 n h))
  where
    from_digits : (s : Bytes) → length s ≡ suc w → All IsHex s → stoul s ≡ some (read_digits 0 s)
    from_digits [] e hex = absurd (omega arith)
    from_digits (c ∷ cs) e hex = stoul-hex c cs hex
