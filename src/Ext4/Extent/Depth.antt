-- ===== src/Ext4/Extent/Depth.antt =====
-- How long `parse_extent_node` goes on: as deep as the tree, and for ever on a cycle.
use linux2win.Base.{
  ℕ, zero, suc, ◌+◌, ◌<◌, ◌≡◌, refl, ◌≢◌, arith, Bytes, ok, stuck, bind-ne-stuck, inl, inr,
  Bool-cases, Option, none, some, ◌==◌, guard, ◌⊎◌, >>=-eq-ok, ok-inj, leb, ◌∙◌, ap, sym, subst,
}
use linux2win.Ext4.Layout.{load_field-ne-stuck, load_field, extent_idx, extent_header}
use linux2win.Ext4.Reader.{Ext4Reader, join32}
use linux2win.Ext4.Inode.{device_block}
use linux2win.Ext4.Extent.{
  found, descend, search_node, scan_extents, physical, choose_index, next_node, parse_extent_node,
  entry_at,
}

-- Below the block lies a tree of index nodes with at most `height` levels above its leaves: if the
-- block can be read, it is a leaf, or the blocks that its entries name are such trees of a smaller
-- height.
abbrev pub IsTree : ℕ → Ext4Reader → ℕ → Type 0
IsTree zero r block =
    (node : Bytes)
    → device_block r block ≡ ok node
    → load_field extent_header "eh_depth" node 0 ≡ ok 0
IsTree (suc height) r block =
    (node : Bytes) (entries i lo hi : ℕ)
    → device_block r block ≡ ok node
    → load_field extent_header "eh_entries" node 0 ≡ ok entries
    → i < entries
    → load_field extent_idx "ei_leaf_lo" node (entry_at i) ≡ ok lo
    → load_field extent_idx "ei_leaf_hi" node (entry_at i) ≡ ok hi
    → IsTree height r (join32 lo hi)

device_block-ne-stuck : (r : Ext4Reader) (block : ℕ) → device_block r block ≢ stuck
unfolding device_block
device_block-ne-stuck r block e = ground arith

physical-ne-stuck : (node : Bytes) (i logical block : ℕ) → physical node i logical block ≢ stuck
unfolding physical load_field
physical-ne-stuck node i logical block e = ground arith

scan-ne-stuck : (node : Bytes) (logical left i : ℕ) → scan_extents node logical left i ≢ stuck
unfolding scan_extents load_field
scan-ne-stuck node logical zero i e = cc
scan-ne-stuck node logical (suc left) i e = ground (arith, scan-ne-stuck node logical left (i + 1))

choose-ne-stuck :
    (node : Bytes) (logical left i : ℕ) (chosen : Option ℕ)
    → choose_index node logical left i chosen ≢ stuck
unfolding choose_index load_field
choose-ne-stuck node logical zero i chosen e = cc
choose-ne-stuck node logical (suc left) i chosen e =
    ground (arith, choose-ne-stuck node logical left (i + 1) (some i))

next_node-ne-stuck : (node : Bytes) (chosen : Option ℕ) → next_node node chosen ≢ stuck
unfolding next_node load_field
next_node-ne-stuck node none e = cc
next_node-ne-stuck node (some i) e = ground arith

search_node-ne-stuck : (node : Bytes) (logical : ℕ) → search_node node logical ≢ stuck
unfolding search_node
search_node-ne-stuck node logical =
    bind-ne-stuck _ _ (load_field-ne-stuck extent_header "eh_magic" node 0) λ magic _.
      bind-ne-stuck (guard (magic == 0xf30a)) _ (λ e. ground arith)
        λ _ _. bind-ne-stuck _ _ (load_field-ne-stuck extent_header "eh_depth" node 0) λ depth _.
          bind-ne-stuck _ _ (load_field-ne-stuck extent_header "eh_entries" node 0) λ entries _.
            elim (Bool-cases (depth == 0)) [
              | inl leaf ↦ rw leaf (scan-ne-stuck node logical entries 0)
              | inr index ↦ rw index (
                  bind-ne-stuck _ _ (choose-ne-stuck node logical entries 0 none)
                    λ chosen _. next_node-ne-stuck node chosen)
            ]

scan-ne-descend :
    (node : Bytes) (logical left i next : ℕ) → scan_extents node logical left i ≢ ok (descend next)
unfolding scan_extents physical load_field
scan-ne-descend node logical zero i next e = cc
scan-ne-descend node logical (suc left) i next e =
    ground (arith, scan-ne-descend node logical left (i + 1) next)

choose_bounds :
    (node : Bytes) (logical left i : ℕ) (chosen : Option ℕ) (k : ℕ)
    → choose_index node logical left i chosen ≡ ok (some k)
    → (chosen ≡ some k) ⊎ (k < i + left)
unfolding choose_index
choose_bounds node logical zero i chosen k e = inl (ok-inj e)
choose_bounds node logical (suc left) i chosen k e =
    let (block, _, e') = >>=-eq-ok (load_field extent_idx "ei_block" node (entry_at i)) _ e in
    elim (Bool-cases (leb block logical)) [
      | inl below ↦ elim (choose_bounds node logical left (i + 1) (some i) k (rw below at e')) [
        | inl it ↦ inr (ground arith)
        | inr later ↦ inr (omega arith)
      ]
      | inr above ↦ inl (ok-inj (rw above at e'))
    ]

next_node-inversion :
    (node : Bytes) (chosen : Option ℕ) (next : ℕ)
    → next_node node chosen ≡ ok (descend next)
    → (i : ℕ) × (lo : ℕ) × (hi : ℕ) × (chosen ≡ some i)
      × (load_field extent_idx "ei_leaf_lo" node (entry_at i) ≡ ok lo)
      × (load_field extent_idx "ei_leaf_hi" node (entry_at i) ≡ ok hi)
      × (join32 lo hi ≡ next)
unfolding next_node
next_node-inversion node none next e = cc
next_node-inversion node (some i) next e =
    let (lo, low, e1) = >>=-eq-ok (load_field extent_idx "ei_leaf_lo" node (entry_at i)) _ e in
    let (hi, high, e2) = >>=-eq-ok (load_field extent_idx "ei_leaf_hi" node (entry_at i)) _ e1 in
    (i, lo, hi, refl, low, high, cc e2)

-- A search that goes on does so at a child that one of the node's entries names, and not in a leaf.
search_node-inversion :
    (node : Bytes) (logical next : ℕ)
    → search_node node logical ≡ ok (descend next)
    → (load_field extent_header "eh_depth" node 0 ≢ ok 0)
      × ((entries : ℕ) × (i : ℕ) × (lo : ℕ) × (hi : ℕ) × (load_field extent_header "eh_entries" node
              0
            ≡ ok entries)
          × (i < entries)
          × (load_field extent_idx "ei_leaf_lo" node (entry_at i) ≡ ok lo)
          × (load_field extent_idx "ei_leaf_hi" node (entry_at i) ≡ ok hi)
          × (join32 lo hi ≡ next))
unfolding search_node
search_node-inversion node logical next e =
    let (magic, _, e1) = >>=-eq-ok (load_field extent_header "eh_magic" node 0) _ e in
    let (_, _, e2) = >>=-eq-ok (guard (magic == 0xf30a)) _ e1 in
    let (depth, deep, e3) = >>=-eq-ok (load_field extent_header "eh_depth" node 0) _ e2 in
    let (entries, many, e4) = >>=-eq-ok (load_field extent_header "eh_entries" node 0) _ e3 in
    elim (Bool-cases (depth == 0)) [
      | inl leaf ↦ absurd (scan-ne-descend node logical entries 0 next (rw leaf at e4))
      | inr inner ↦
          let (chosen, choice, e5) =
            >>=-eq-ok (choose_index node logical entries 0 none) _ (rw inner at e4) in
          let (i, lo, hi, it, low, high, goes) = next_node-inversion node chosen next e5 in
          let bound : i < entries =
            elim (choose_bounds node logical entries 0 none i (choice ∙ ap ok it)) [
              | inl nothing ↦ cc nothing
              | inr below ↦ omega arith
            ] in
          (
            (λ z. let same : depth ≡ 0 = ok-inj (sym deep ∙ z) in ground arith),
            (entries, i, lo, hi, many, bound, low, high, goes),
          )
    ]

child-IsTree :
    (height : ℕ) (r : Ext4Reader) (logical block next : ℕ) (node : Bytes)
    → IsTree height r block
    → device_block r block ≡ ok node
    → search_node node logical ≡ ok (descend next)
    → (lower : ℕ) × (lower < height) × IsTree lower r next
child-IsTree zero r logical block next node tree read step =
    absurd ((search_node-inversion node logical next step).0 (tree node read))
child-IsTree (suc height) r logical block next node tree read step =
    let (_, (entries, i, lo, hi, many, bound, low, high, goes)) =
      search_node-inversion node logical next step in
    (
      height,
      omega arith,
      subst (IsTree height r) goes (tree node entries i lo hi read many bound low high),
    )

-- On a tree of index nodes the search below a block ends, within one call for each level and one
-- more, whatever the logical block.
pub parse_extent_node-ends :
    (r : Ext4Reader) (logical height fuel block : ℕ)
    → IsTree height r block
    → height < fuel
    → parse_extent_node fuel r block logical ≢ stuck
unfolding parse_extent_node
parse_extent_node-ends r logical height zero block tree h = absurd (omega arith)
parse_extent_node-ends r logical height (suc fuel) block tree h =
    bind-ne-stuck (device_block r block) _ (device_block-ne-stuck r block) λ node read.
      bind-ne-stuck (search_node node logical) _ (search_node-ne-stuck node logical) (elim [
        | found p ↦ λ _ e. cc
        | descend next ↦ λ step.
            let (lower, less, child) =
              child-IsTree height r logical block next node tree read step in
            parse_extent_node-ends r logical lower fuel next child (omega arith)
      ])

-- A set of blocks in which the search always goes on to another block of the set.
abbrev pub IsTrap {ℓ} : Ext4Reader → ℕ → (ℕ → Type ℓ) → Type ℓ
IsTrap r logical P =
    (block : ℕ)
    → P block
    → (node : Bytes) × (next : ℕ) × (device_block r block ≡ ok node)
      × (search_node node logical ≡ ok (descend next))
      × P next

-- Nothing counts the levels: on a volume whose index nodes point back at one another no number of
-- calls is enough.
pub parse_extent_node-loops {ℓ} :
    (r : Ext4Reader) (logical : ℕ) (P : ℕ → Type ℓ)
    → IsTrap r logical P
    → (fuel block : ℕ) → P block
    → parse_extent_node fuel r block logical ≡ stuck
unfolding parse_extent_node
parse_extent_node-loops r logical P trap zero block inside = refl
parse_extent_node-loops r logical P trap (suc fuel) block inside =
    let (node, next, read, step, again) = trap block inside in
    rw (read, step) (parse_extent_node-loops r logical P trap fuel next again)
