-- ===== src/Ext4/Extent/Search.antt =====
-- What the search of one extent node answers, against the list of the entries that the node holds.
use linux2win.Base.{
  ℕ, zero, suc, ◌+◌, ◌-◌, ◌%◌, ◌≤◌, ◌<◌, ◌≡◌, refl, sym, ap, subst, ◌⊎◌, inl, inr, true, false,
  Option, some, List, [], ◌∷◌, ◌++◌, arith, Bytes, Result, ok, failed, ◌>>=◌, length, All, u32, u64,
  leb, if◌then◌else◌, Bool-cases, >>=-eq-ok,
}
use linux2win.Ext4.Layout.{extent, extent_idx, load_field}
use linux2win.Ext4.Reader.{join32}
use linux2win.Ext4.Extent.{Step, found, covers, extent_length, entry_at, scan_extents, choose_index}

-- One entry of a leaf: `len` blocks from the logical block `block` on, at the physical `start`.
pub record Extent : Type 0 where
  pub block : ℕ
  pub len : ℕ
  pub start : ℕ

unfoldable pub decode_extent : Bytes → ℕ → Result Extent
decode_extent node i = do
  block ← load_field extent "ee_block" node (entry_at i)
  len ← load_field extent "ee_len" node (entry_at i)
  lo ← load_field extent "ee_start_lo" node (entry_at i)
  hi ← load_field extent "ee_start_hi" node (entry_at i)
  ok (record { block = block; len = extent_length len; start = join32 lo hi })

-- `left` entries of a leaf, from entry `i` on.
unfoldable pub decode_leaf : Bytes → ℕ → ℕ → Result (List Extent)
unfolding decode_extent
decode_leaf node zero i = ok []
decode_leaf node (suc left) i = do
  e ← decode_extent node i
  es ← decode_leaf node left (i + 1)
  ok (e ∷ es)

abbrev pub Covers : ℕ → Extent → Type 0
Covers logical e = (e.block ≤ logical) × (logical < (e.block + e.len) % u32)

abbrev pub place : ℕ → Extent → ℕ
place logical e = (e.start + (logical - e.block)) % u64

-- The first extent that covers the block is found, at the front of `back`; or none does.
abbrev pub Finds : ℕ → List Extent → Result Step → Type 0
Finds logical es r =
    ((e : Extent) × (front : List Extent) × (back : List Extent) × (es ≡ front ++ (e ∷ back))
      × All (λ x. ¬ Covers logical x) front
      × Covers logical e
      × (r ≡ ok (found (place logical e))))
    ⊎ (All (λ x. ¬ Covers logical x) es × (r ≡ failed))

covers_iff : (logical : ℕ) (e : Extent) → covers logical e.block e.len ≡ true → Covers logical e
covers_iff logical e h = ground arith

not-covers : (logical : ℕ) (e : Extent) → covers logical e.block e.len ≡ false → ¬ Covers logical e
not-covers logical e h (lo, hi) = ground arith

scan_hit :
    (node : Bytes) (logical left i : ℕ) (e : Extent)
    → decode_extent node i ≡ ok e
    → covers logical e.block e.len ≡ true
    → scan_extents node logical (suc left) i ≡ ok (found (place logical e))
unfolding scan_extents decode_extent
scan_hit node logical left i e d c = ground arith

scan_miss :
    (node : Bytes) (logical left i : ℕ) (e : Extent)
    → decode_extent node i ≡ ok e
    → covers logical e.block e.len ≡ false
    → scan_extents node logical (suc left) i ≡ scan_extents node logical left (i + 1)
unfolding scan_extents decode_extent
scan_miss node logical left i e d c = ground arith

Finds-cons :
    (logical : ℕ) (e : Extent) (es : List Extent) (r : Result Step)
    → ¬ Covers logical e
    → Finds logical es r
    → Finds logical (e ∷ es) r
Finds-cons logical e es r miss (inl (x, front, back, eq, before, hit, res)) =
    inl (x, e ∷ front, back, ap (◌∷◌ e) eq, (miss, before), hit, res)
Finds-cons logical e es r miss (inr (before, res)) = inr ((miss, before), res)

-- The scan of a leaf whose entries all lie in the node's memory finds the first extent that covers
-- the logical block, and places it there; it fails exactly when none covers it.
pub scan_extents-Finds :
    (node : Bytes) (logical left i : ℕ) (es : List Extent)
    → decode_leaf node left i ≡ ok es
    → Finds logical es (scan_extents node logical left i)
unfolding decode_leaf scan_extents
scan_extents-Finds node logical zero i [] d = inr (tt, refl)
scan_extents-Finds node logical zero i (e ∷ es) d = ground arith
scan_extents-Finds node logical (suc left) i es d =
    let (e, first, rest) = >>=-eq-ok (decode_extent node i) _ d in
    let (tail, later, last) = >>=-eq-ok (decode_leaf node left (i + 1)) _ rest in
    let whole : (e ∷ tail) ≡ es = ground arith in
    subst (λ l. Finds logical l (scan_extents node logical (suc left) i)) whole
      (elim (Bool-cases (covers logical e.block e.len)) [
        | inl hit ↦ inl (
          e,
          [],
          tail,
          refl,
          tt,
          covers_iff logical e hit,
          scan_hit node logical left i e first hit,
        )
        | inr miss ↦
            subst (Finds logical (e ∷ tail)) (sym (scan_miss node logical left i e first miss)) (
              Finds-cons logical e tail _ (not-covers logical e miss)
                (scan_extents-Finds node logical left (i + 1) tail later))
      ])

-- The first logical blocks of `left` index entries, from entry `i` on.
unfoldable pub decode_keys : Bytes → ℕ → ℕ → Result (List ℕ)
decode_keys node zero i = ok []
decode_keys node (suc left) i = do
  key ← load_field extent_idx "ei_block" node (entry_at i)
  keys ← decode_keys node left (i + 1)
  ok (key ∷ keys)

-- The last entry of a run from `i` on; `chosen` for the empty run.
abbrev pub last_of : ℕ → List ℕ → Option ℕ → Option ℕ
last_of i [] chosen = chosen
last_of i (key ∷ keys) chosen = some (i + length keys)

abbrev pub StartsAbove : ℕ → List ℕ → Type 0
StartsAbove logical [] = Unit {0}
StartsAbove logical (key ∷ keys) = logical < key

abbrev pub Chooses : ℕ → ℕ → List ℕ → Option ℕ → Result (Option ℕ) → Type 0
Chooses logical i keys chosen r =
    (front : List ℕ) × (back : List ℕ) × (keys ≡ front ++ back)
    × All (λ k. k ≤ logical) front
    × StartsAbove logical back
    × (r ≡ ok (last_of i front chosen))

last_of_next : (i : ℕ) (front : List ℕ) → last_of (i + 1) front (some i) ≡ some (i + length front)
last_of_next i [] = ground arith
last_of_next i (k ∷ front) = ground arith

choose_step :
    (node : Bytes) (logical left i key : ℕ) (chosen : Option ℕ)
    → load_field extent_idx "ei_block" node (entry_at i) ≡ ok key
    → choose_index node logical (suc left) i chosen
      ≡ (if leb key logical then choose_index node logical left (i + 1) (some i) else ok chosen)
unfolding choose_index
choose_step node logical left i key chosen first = ground arith

-- The choice among index entries that all lie in the node's memory: the last entry of the longest
-- front run of keys at or below the logical block, and no entry if the first key is above it.
pub choose_index-Chooses :
    (node : Bytes) (logical left i : ℕ) (keys : List ℕ) (chosen : Option ℕ)
    → decode_keys node left i ≡ ok keys
    → Chooses logical i keys chosen (choose_index node logical left i chosen)
unfolding decode_keys
choose_index-Chooses node logical zero i [] chosen d =
    ([], [], refl, tt, tt, unfold choose_index in refl)
choose_index-Chooses node logical zero i (k ∷ keys) chosen d = ground arith
choose_index-Chooses node logical (suc left) i keys chosen d =
    let (k, first, rest) = >>=-eq-ok (load_field extent_idx "ei_block" node (entry_at i)) _ d in
    let (tail, later, last) = >>=-eq-ok (decode_keys node left (i + 1)) _ rest in
    let whole : (k ∷ tail) ≡ keys = ground arith in
    let step = choose_step node logical left i k chosen first in
    subst (λ l. Chooses logical i l chosen (choose_index node logical (suc left) i chosen)) whole
      (elim (Bool-cases (leb k logical)) [
        | inl below ↦
            let (front, back, eq, small, above, r) =
              choose_index-Chooses node logical left (i + 1) tail (some i) later in
            (
              k ∷ front,
              back,
              ap (◌∷◌ k) eq,
              (ground arith, small),
              above,
              ground (arith, step, r, last_of_next i front),
            )
        | inr over ↦ ([], k ∷ tail, refl, tt, ground arith, ground (arith, step))
      ])
