-- ===== src/Ext4/Path/Parts.antt =====
-- How a path is cut into parts, and what the lookup of a composed path does.
use mathlib.Core.List.{append_assoc, append-nil}
use linux2win.Base.{
  ℕ, ◌≡◌, ◌≢◌, refl, sym, ap, ◌∙◌, inl, inr, true, false, List, [], ◌∷◌, ◌++◌, arith, Bytes, ok,
  ◌>>=◌, >>=-assoc, >>=-cong, from_option, All, All-append, codes, Bool-cases,
}
use linux2win.Ext4.Reader.{Ext4Reader}
use linux2win.Ext4.Directory.{list_directory}
use linux2win.Ext4.Path.{
  is_separator, push_part, split_loop, split_path, find_entry, walk, is_root_path, lookup_path,
  root_inode,
}

abbrev pub IsPlain : ℕ → Type 0
IsPlain c = is_separator c ≡ false

-- A part has a character, and no slash of either kind.
abbrev pub IsPart : Bytes → Type 0
IsPart part = (part ≢ []) × All IsPlain part

abbrev pub join : List Bytes → Bytes
join [] = []
join (part ∷ parts) = b'/' ∷ (part ++ join parts)

push-IsPart :
    (current : Bytes) (parts : List Bytes)
    → All IsPlain current
    → All IsPart parts
    → All IsPart (push_part current parts)
push-IsPart [] parts plain h = h
push-IsPart (c ∷ cs) parts plain h = (((λ e. cc), plain), h)

split_loop-IsPart :
    (current path : Bytes) → All IsPlain current → All IsPart (split_loop current path)
unfolding split_loop
split_loop-IsPart current [] plain = push-IsPart current [] plain tt
split_loop-IsPart current (c ∷ cs) plain = elim (Bool-cases (is_separator c)) [
  | inl cut ↦ rw cut (push-IsPart current _ plain (split_loop-IsPart [] cs tt))
  | inr longer ↦ rw longer (
      split_loop-IsPart (current ++ (c ∷ [])) cs
        (All-append IsPlain current (c ∷ []) plain (longer, tt)))
]

split_step :
    (current : Bytes) (c : ℕ) (rest : Bytes)
    → IsPlain c
    → split_loop current (c ∷ rest) ≡ split_loop (current ++ (c ∷ [])) rest
unfolding split_loop
split_step current c rest plain = rw plain refl

split_loop-plain :
    (current part rest : Bytes)
    → All IsPlain part
    → split_loop current (part ++ rest) ≡ split_loop (current ++ part) rest
split_loop-plain current [] rest h = ap (λ c. split_loop c rest) (sym (append-nil current))
split_loop-plain current (c ∷ cs) rest (plain, h) =
    split_step current c (cs ++ rest) plain
    ∙ split_loop-plain (current ++ (c ∷ [])) cs rest h
    ∙ ap (λ s. split_loop s rest) (append_assoc current (c ∷ []) cs)

split_loop-join :
    (c : ℕ) (cs : Bytes) (parts : List Bytes)
    → split_loop (c ∷ cs) (join parts) ≡ (c ∷ cs) ∷ split_path (join parts)
unfolding split_loop split_path
split_loop-join c cs [] = refl
split_loop-join c cs (part ∷ parts) = refl

split_part :
    (c : ℕ) (cs rest : Bytes)
    → All IsPlain (c ∷ cs)
    → split_path (b'/' ∷ (c ∷ (cs ++ rest))) ≡ split_loop (c ∷ cs) rest
unfolding split_path split_loop
split_part c cs rest plain = split_loop-plain [] (c ∷ cs) rest plain

split_path-again : (parts : List Bytes) → All IsPart parts → split_path (join parts) ≡ parts
split_path-again [] h = unfold split_path split_loop in refl
split_path-again ([] ∷ parts) ((nonempty, _), h) = absurd (nonempty refl)
split_path-again ((c ∷ cs) ∷ parts) ((_, plain), h) =
    split_part c cs (join parts) plain
    ∙ split_loop-join c cs parts
    ∙ ap (◌∷◌ (c ∷ cs)) (split_path-again parts h)

-- Every part of a path has a character and no slash, and a path that is joined from such parts is
-- cut into them again.
pub split_path-join :
    (path : Bytes) (parts : List Bytes)
    → All IsPart parts
    → All IsPart (split_path path) × (split_path (join parts) ≡ parts)
unfolding split_path
split_path-join path parts h = (split_loop-IsPart [] path tt, split_path-again parts h)

push_part-append :
    (current : Bytes) (xs ys : List Bytes)
    → push_part current (xs ++ ys) ≡ push_part current xs ++ ys
push_part-append [] xs ys = refl
push_part-append (c ∷ cs) xs ys = refl

split_loop-cut :
    (separator : ℕ) (current front back : Bytes)
    → is_separator separator ≡ true
    → split_loop current (front ++ (separator ∷ back))
      ≡ split_loop current front ++ split_loop [] back
unfolding split_loop
split_loop-cut separator current [] back cuts =
    rw cuts (push_part-append current [] (split_loop [] back))
split_loop-cut separator current (c ∷ cs) back cuts = elim (Bool-cases (is_separator c)) [
  | inl cut ↦ rw (cut, split_loop-cut separator [] cs back cuts) (push_part-append current _ _)
  | inr longer ↦ rw longer (split_loop-cut separator (current ++ (c ∷ [])) cs back cuts)
]

-- The parts in front of a separator, and those behind it.
pub split_path-cut :
    (separator : ℕ) (front back : Bytes)
    → is_separator separator ≡ true
    → split_path (front ++ (separator ∷ back)) ≡ split_path front ++ split_path back
unfolding split_path
split_path-cut separator front back = split_loop-cut separator [] front back

-- A part alone.
pub split_path-part : (name : Bytes) → IsPart name → split_path name ≡ name ∷ []
unfolding split_path
split_path-part [] (nonempty, plain) = absurd (nonempty refl)
split_path-part (c ∷ cs) (nonempty, plain) =
    ap (split_loop []) (sym (append-nil (c ∷ cs)))
    ∙ split_loop-plain [] (c ∷ cs) [] plain
    ∙ unfold split_loop in refl

split_path-slash :
    (front back : Bytes) → split_path (front ++ (b'/' ∷ back)) ≡ split_path front ++ split_path back
split_path-slash front back = split_path-cut b'/' front back refl

walk-append :
    (fuel depth : ℕ) (r : Ext4Reader) (current : ℕ) (xs ys : List Bytes)
    → walk fuel depth r current (xs ++ ys)
      ≡ (walk fuel depth r current xs >>= λ middle. walk fuel depth r middle ys)
unfolding walk
walk-append fuel depth r current [] ys = refl
walk-append fuel depth r current (x ∷ xs) ys =
    let entries = list_directory fuel depth r current in
    >>=-cong entries _ _ (λ es.
      >>=-cong (from_option (find_entry x es)) _ _ (λ child. walk-append fuel depth r child xs ys)
      ∙ sym (>>=-assoc (from_option (find_entry x es)) _ _))
    ∙ sym (>>=-assoc entries _ _)

-- Only `.` is treated in another way than by its parts.
root_by_parts :
    (fuel depth : ℕ) (r : Ext4Reader) (path : Bytes)
    → path ≢ codes "."
    → is_root_path path ≡ true
    → walk fuel depth r root_inode (split_path path) ≡ ok root_inode
unfolding is_root_path split_path split_loop walk
root_by_parts fuel depth r [] h root = refl
root_by_parts fuel depth r (c ∷ []) h root = elim (Bool-cases (is_separator c)) [
  | inl cut ↦ rw cut refl
  | inr other ↦ let dot : c ≡ b'.' = ground arith in absurd (h (ap (λ x. x ∷ []) dot))
]
root_by_parts fuel depth r (c ∷ (d ∷ cs)) h root = absurd (ground arith)

slash-ne-dot : (front back : Bytes) → (front ++ (b'/' ∷ back)) ≢ codes "."
slash-ne-dot [] back e = ground arith
slash-ne-dot (c ∷ []) back e = cc
slash-ne-dot (c ∷ (d ∷ cs)) back e = cc

lookup_walk :
    (fuel depth : ℕ) (r : Ext4Reader) (path : Bytes)
    → r.mounted ≡ true
    → path ≢ codes "."
    → lookup_path fuel depth r path ≡ walk fuel depth r root_inode (split_path path)
unfolding lookup_path
lookup_walk fuel depth r path mounted h = elim (Bool-cases (is_root_path path)) [
  | inl root ↦ simp (mounted, root, root_by_parts fuel depth r path h root)
  | inr below ↦ simp (mounted, below)
]

-- On a mounted volume the lookup of `front/back` goes on from where the lookup of `front` ends, part
-- by part of `back`, and fails where that one fails; `front` must not be the path `.`, which stands
-- for the root only where it is the whole path.
pub lookup_path-slash :
    (fuel depth : ℕ) (r : Ext4Reader) (front back : Bytes)
    → r.mounted ≡ true
    → front ≢ codes "."
    → lookup_path fuel depth r (front ++ (b'/' ∷ back))
      ≡ (lookup_path fuel depth r front >>= λ middle. walk fuel depth r middle (split_path back))
lookup_path-slash fuel depth r front back mounted h =
    lookup_walk fuel depth r (front ++ (b'/' ∷ back)) mounted (slash-ne-dot front back)
    ∙ ap (walk fuel depth r root_inode) (split_path-slash front back)
    ∙ walk-append fuel depth r root_inode (split_path front) (split_path back)
    ∙ ap (λ m. m >>= λ middle. walk fuel depth r middle (split_path back))
        (sym (lookup_walk fuel depth r front mounted h))
