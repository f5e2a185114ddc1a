-- ===== src/Vfs/Cuts.antt =====
-- `find_node` cuts a path into the parts that `Ext4Reader::lookup_path` cuts it into; and the times.
use mathlib.Core.List.{append_assoc, append-nil}
use linux2win.Base.{
  ℕ, ◌+◌, ◌*◌, ◌<◌, ◌≡◌, refl, sym, ap, ◌∙◌, List, [], ◌∷◌, ◌++◌, arith, Bytes, All, u32,
}
use linux2win.Ext4.Path.{split_path}
use linux2win.Ext4.Path.Parts.{IsPlain, IsPart, split_path-join}
use linux2win.Vfs.Names.{
  backslash, normalize_path, unless_empty, cut_loop, cut_path, unix_epoch_to_filetime,
  epoch_difference,
}
use linux2win.Vfs.Paths.{joined, normalize_path-joined, not_backslash}

cut_loop-plain :
    (current part rest : Bytes)
    → All IsPlain part
    → cut_loop current (part ++ rest) ≡ cut_loop (current ++ part) rest
unfolding cut_loop
cut_loop-plain current [] rest h = ap (λ c. cut_loop c rest) (sym (append-nil current))
cut_loop-plain current (c ∷ cs) rest (plain, h) =
    rw (not_backslash c plain, cut_loop)
      (cut_loop-plain (current ++ (c ∷ [])) cs rest h
        ∙ ap (λ s. cut_loop s rest) (append_assoc current (c ∷ []) cs))

unless_empty-joined :
    (p : Bytes) (ps : List Bytes) (parts : List Bytes)
    → IsPart p
    → unless_empty (joined (p ∷ ps)) parts ≡ parts
unless_empty-joined [] ps parts (nonempty, _) = absurd (nonempty refl)
unless_empty-joined (c ∷ cs) [] parts h = refl
unless_empty-joined (c ∷ cs) (q ∷ ps) parts h = refl

cut_loop-joined :
    (p : Bytes) (ps : List Bytes) → All IsPart (p ∷ ps) → cut_loop [] (joined (p ∷ ps)) ≡ p ∷ ps
unfolding cut_loop
cut_loop-joined p [] ((_, plain), _) =
    ap (cut_loop []) (sym (append-nil p)) ∙ cut_loop-plain [] p [] plain
cut_loop-joined p (q ∷ ps) ((_, plain), (hq, all)) =
    cut_loop-plain [] p (backslash ∷ joined (q ∷ ps)) plain
    ∙ ap (λ parts. p ∷ parts)
        (unless_empty-joined q ps (cut_loop [] (joined (q ∷ ps))) hq
          ∙ cut_loop-joined q ps (hq, all))

cut_path-joined : (parts : List Bytes) → All IsPart parts → cut_path (joined parts) ≡ parts
unfolding cut_path
cut_path-joined [] all = refl
cut_path-joined (p ∷ ps) (h, all) =
    unless_empty-joined p ps (cut_loop [] (joined (p ∷ ps))) h ∙ cut_loop-joined p ps (h, all)

-- `find_node` normalizes a path and cuts it at the backslashes: this gives the parts that the reader's
-- `lookup_path` cuts the same path into, whatever slashes it has.
pub cut_path-normalize : (path : Bytes) → cut_path (normalize_path path) ≡ split_path path
cut_path-normalize path =
    ap cut_path (normalize_path-joined path)
    ∙ cut_path-joined (split_path path) (split_path-join path [] tt).0

-- The two halves of a file time, for each time of 32 bits, are those of the number of 100-nanosecond
-- intervals since 1601, and nothing is cut off.
pub unix_epoch_to_filetime-exact :
    (seconds : ℕ)
    → seconds < u32
    → let time = unix_epoch_to_filetime seconds in
      (time.low < u32)
      × (time.high < u32)
      × (time.low + u32 * time.high ≡ seconds * 10_000_000 + epoch_difference)
unfolding unix_epoch_to_filetime
unix_epoch_to_filetime-exact seconds h = (omega arith, omega arith, omega arith)
