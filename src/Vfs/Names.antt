-- ===== src/Vfs/Names.antt =====
-- The times and paths of src/vfs/vfs_tree.cpp: `unix_epoch_to_filetime`, `normalize_path`, the cutting
-- of a normalized path in `find_node`, and `_stricmp`.
use linux2win.Base.{
  ℕ, ◌+◌, ◌*◌, ◌/◌, ◌%◌, Bool, false, not, List, [], ◌∷◌, ◌++◌, map, Bytes, same, ◌==◌,
  if◌then◌else◌, u32, u64,
}
use linux2win.Guid.{lower}
use linux2win.Ext4.Reader.{c_string}
use linux2win.Ext4.Path.{is_separator}

pub record FileTime : Type 0 where
  pub low : ℕ
  pub high : ℕ

abbrev pub epoch_difference : ℕ
epoch_difference = 116_444_736_000_000_000

-- 100-nanosecond intervals since 1601, in 64 bits.
unfoldable pub unix_epoch_to_filetime : ℕ → FileTime
unix_epoch_to_filetime seconds =
    let value = (seconds * 10_000_000 + epoch_difference) % u64 in
    record { low = value % u32; high = value / u32 % u32 }

abbrev pub backslash : ℕ
backslash = b'\\'

-- `!norm.empty() && norm.back() != '\\'`
unfoldable pub ends_open : Bytes → Bool
ends_open [] = false
ends_open (c ∷ []) = not (c == backslash)
ends_open (c ∷ d ∷ ds) = ends_open (d ∷ ds)

abbrev pub norm_step : Bytes → ℕ → Bytes
norm_step norm c =
    if is_separator c
    then if ends_open norm then norm ++ (backslash ∷ []) else norm
    else norm ++ (c ∷ [])

unfoldable pub norm_loop : Bytes → Bytes → Bytes
unfolding ends_open
norm_loop norm [] = norm
norm_loop norm (c ∷ cs) = norm_loop (norm_step norm c) cs

unfoldable pub strip_front : Bytes → Bytes
strip_front [] = []
strip_front (c ∷ cs) = let rest = strip_front cs in if c == backslash then rest else c ∷ cs

abbrev pub keep_front : ℕ → Bytes → Bytes
keep_front c [] = if c == backslash then [] else c ∷ []
keep_front c (d ∷ ds) = c ∷ d ∷ ds

unfoldable pub strip_back : Bytes → Bytes
strip_back [] = []
strip_back (c ∷ cs) = keep_front c (strip_back cs)

unfoldable pub normalize_path : Bytes → Bytes
unfolding norm_loop strip_front strip_back
normalize_path path = strip_back (strip_front (norm_loop [] path))

-- The loop with `norm.find('\\', start)`: what stands between two backslashes is a part.
abbrev pub unless_empty : Bytes → List Bytes → List Bytes
unless_empty [] parts = []
unless_empty (c ∷ cs) parts = parts

unfoldable pub cut_loop : Bytes → Bytes → List Bytes
cut_loop current [] = current ∷ []
cut_loop current (c ∷ cs) =
    let rest = cut_loop (if c == backslash then [] else current ++ (c ∷ [])) cs in
    if c == backslash then current ∷ unless_empty cs rest else rest

unfoldable pub cut_path : Bytes → List Bytes
unfolding cut_loop
cut_path norm = unless_empty norm (cut_loop [] norm)

-- `_stricmp(a, b) == 0` in the C locale: up to the first zero, without regard to case.
unfoldable pub same_name : Bytes → Bytes → Bool
unfolding c_string
same_name a b = same (map lower (c_string a)) (map lower (c_string b))
