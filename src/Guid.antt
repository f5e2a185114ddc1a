-- ===== src/Guid.antt =====
-- `Guid` of include/linux2win/types.hpp and src/disk/partition_filter.cpp: comparing, printing and
-- reading, with the `std::stoul` that reading uses.
pub mod Digits
pub mod RoundTrip
mod Runs
use linux2win.Base.{
  ℕ, zero, suc, ◌+◌, ◌-◌, ◌*◌, ◌/◌, ◌%◌, ◌^◌, Bool, ◌&&◌, ◌||◌, not, Option, none, some, List, [],
  ◌∷◌, ◌++◌, Bytes, String, codes, length, take, drop, replicate, slice, same, ltb, leb, ◌==◌,
  if◌then◌else◌, u16, u32,
}

pub record Guid : Type 0 where
  pub data1 : ℕ
  pub data2 : ℕ
  pub data3 : ℕ
  pub data4 : Bytes

-- `Guid{}`
abbrev pub no_guid : Guid
no_guid = record { data1 = 0; data2 = 0; data3 = 0; data4 = replicate 8 0 }

unfoldable pub guid_eq : Guid → Guid → Bool
guid_eq a b =
    a.data1 == b.data1 && (a.data2 == b.data2 && (a.data3 == b.data3 && same a.data4 b.data4))

-- `std::hex` in lower case.
abbrev pub hex_digit : ℕ → ℕ
hex_digit n = if ltb n 10 then b'0' + n else b'a' + (n - 10)

-- `std::setw(w)` with `std::setfill('0')`, for a number of at most `w` digits.
unfoldable pub hex_text : ℕ → ℕ → Bytes
hex_text zero n = []
hex_text (suc w) n = hex_text w (n / 16) ++ (hex_digit (n % 16) ∷ [])

unfoldable pub hex_bytes : Bytes → Bytes
hex_bytes [] = []
hex_bytes (b ∷ bs) = hex_text 2 b ++ hex_bytes bs

abbrev pub dash : Bytes
dash = b'-' ∷ []

unfoldable pub to_string : Guid → Bytes
to_string g =
    hex_text 8 g.data1
    ++ (dash
        ++ (hex_text 4 g.data2
            ++ (dash
                ++ (hex_text 4 g.data3
                    ++ (dash
                        ++ (hex_bytes (take 2 g.data4) ++ (dash ++ hex_bytes (drop 2 g.data4))))))))

-- `std::tolower` in the C locale.
abbrev pub lower : ℕ → ℕ
lower c = if leb b'A' c && leb c b'Z' then c + 32 else c

abbrev pub is_skipped : ℕ → Bool
is_skipped c = c == b'-' || (c == b'{' || c == b'}')

unfoldable pub clean : Bytes → Bytes
clean [] = []
clean (c ∷ cs) = let rest = clean cs in if is_skipped c then rest else lower c ∷ rest

-- The value of a hexadecimal digit in lower case.
abbrev pub hex_value : ℕ → Option ℕ
hex_value c =
    if leb b'0' c && leb c b'9'
    then some (c - b'0')
    else if leb b'a' c && leb c b'f'
    then some (c - 87)
    else none

-- Digits up to the first character that is none.
unfoldable pub read_digits : ℕ → Bytes → ℕ
read_digits acc [] = acc
read_digits acc (c ∷ cs) = elim (hex_value c) [
  | none ↦ acc
  | some v ↦ read_digits (acc * 16 + v) cs
]

-- `std::invalid_argument` where there is no digit.
unfoldable pub read_number : Bytes → Option ℕ
unfolding read_digits
read_number [] = none
read_number (c ∷ cs) = elim (hex_value c) [ none ↦ none | some v ↦ some (read_digits v cs) ]

-- `0x` counts as a prefix only in front of a digit.
unfoldable pub read_prefixed : Bytes → Option ℕ
read_prefixed [] = none
read_prefixed (c ∷ []) = read_number (c ∷ [])
read_prefixed (c ∷ d ∷ cs) =
    if c == b'0' && d == b'x'
    then elim (read_number cs) [ none ↦ some 0 | some n ↦ some n ]
    else read_number (c ∷ d ∷ cs)

abbrev pub is_space : ℕ → Bool
is_space c = c == 32 || (leb 9 c && leb c 13)

-- `std::stoul(s, nullptr, 16)`: white space and a plus sign may come first, and what follows the
-- number is not looked at. A minus sign cannot occur, since `clean` drops it.
unfoldable pub stoul : Bytes → Option ℕ
stoul [] = none
stoul (c ∷ cs) =
    let rest = stoul cs in
    if is_space c then rest else if c == b'+' then read_prefixed cs else read_prefixed (c ∷ cs)

infixl 5 ◌>>=◌
abbrev pub ◌>>=◌ {ℓ κ} : {A : Type ℓ} {B : Type κ} → Option A → (A → Option B) → Option B
none >>= f = none
some a >>= f = f a

-- The loop over `data4`, from pair `i` on.
unfoldable pub read_pairs : ℕ → ℕ → Bytes → Option Bytes
read_pairs zero i text = some []
read_pairs (suc left) i text = do
  b ← stoul (slice (16 + i * 2) 2 text)
  bs ← read_pairs left (i + 1) text
  some ((b % 256) ∷ bs)

unfoldable pub read_guid : Bytes → Option Guid
read_guid text = do
  data1 ← stoul (slice 0 8 text)
  data2 ← stoul (slice 8 4 text)
  data3 ← stoul (slice 12 4 text)
  data4 ← read_pairs 8 0 text
  some (record { data1 = data1 % u32; data2 = data2 % u16; data3 = data3 % u16; data4 = data4 })

abbrev pub or_no_guid : Option Guid → Guid
or_no_guid none = no_guid
or_no_guid (some g) = g

unfoldable pub from_string : Bytes → Guid
from_string text =
    let cleaned = clean text in
    let read = read_guid cleaned in if length cleaned == 32 then or_no_guid read else no_guid
