-- ===== src/Base/Words.antt =====
-- Machine words and the bytes that hold them. Memory is a list of numbers below 256.
use Prim.Native.Nat.{ℕ, zero, suc, ◌+◌, ◌*◌, ◌/◌, ◌%◌, ◌^◌}
use Prim.Native.Char.{code}
use Prim.Native.String.{String}
use mathlib.Core.List.{List, [], ◌∷◌}
use linux2win.Base.Lists.{take, drop}

abbrev pub Bytes : Type 0
Bytes = List ℕ

abbrev pub u16 : ℕ
u16 = 2 ^ 16

abbrev pub u32 : ℕ
u32 = 2 ^ 32

abbrev pub u64 : ℕ
u64 = 2 ^ 64

-- The code points of a literal: its bytes, since every literal here is ASCII.
abbrev pub codes : String → Bytes
codes String.[] = []
codes (String.◌∷◌ c s) = code c ∷ codes s

-- A little-endian number, and the bytes of one.
abbrev pub le_num : Bytes → ℕ
le_num [] = 0
le_num (b ∷ bs) = b + 256 * le_num bs

abbrev pub le_bytes : ℕ → ℕ → Bytes
le_bytes zero n = []
le_bytes (suc w) n = (n % 256) ∷ le_bytes w (n / 256)

abbrev pub slice : ℕ → ℕ → Bytes → Bytes
slice off n bs = take n (drop off bs)
