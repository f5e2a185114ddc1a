-- ===== src/Ext4/Runs/Trees.antt =====
-- Extent trees: a leaf, an index node, and an index node that points at itself.
use linux2win.Base.{
  zero, suc, ◌<◌, ok-inj, ◌∙◌, ap, ℕ, ◌*◌, ◌≡◌, ◌≢◌, refl, sym, subst, none, List, [], ◌∷◌, ◌++◌,
  arith, Bytes, ok, stuck, le_bytes,
}
use linux2win.Ext4.Layout.{load_field, load, extent_header, extent_idx}
use linux2win.Ext4.Reader.{Ext4Reader, join32}
use linux2win.Ext4.Inode.{device_block}
use linux2win.Ext4.Extent.{
  entry_at, extent_magic, descend, search_node, scan_extents, choose_index, parse_extent_node,
}
use linux2win.Ext4.Extent.Search.{
  Extent, decode_extent, decode_leaf, decode_keys, Finds, Chooses, scan_extents-Finds,
  choose_index-Chooses,
}
use linux2win.Ext4.Extent.Depth.{IsTree, IsTrap, parse_extent_node-ends, parse_extent_node-loops}
use linux2win.Ext4.Runs.{Image, padded, device_on, reader_of}

abbrev header : ℕ → ℕ → Bytes
header entries depth =
    le_bytes 2 extent_magic ++ (le_bytes 2 entries ++ (le_bytes 2 4 ++ padded 6 (le_bytes 2 depth)))

-- Logical block, length and physical block of an entry of a leaf; key and child of an index entry.
abbrev leaf_entry : ℕ → ℕ → ℕ → Bytes
leaf_entry block len start =
    le_bytes 4 block ++ (le_bytes 2 len ++ (le_bytes 2 0 ++ le_bytes 4 start))

abbrev index_entry : ℕ → ℕ → Bytes
index_entry block child = le_bytes 4 block ++ padded 8 (le_bytes 4 child)

-- The second extent is marked as not written.
abbrev leaf : Bytes
leaf = header 2 0 ++ (leaf_entry 0 2 100 ++ leaf_entry 5 32771 200)

abbrev index : ℕ → ℕ → Bytes
index left right = header 2 1 ++ (index_entry 0 left ++ index_entry 5 right)

abbrev extents : List Extent
extents =
    record { block = 0; len = 2; start = 100 } ∷ record { block = 5; len = 3; start = 200 } ∷ []

leaf_decodes : decode_leaf leaf 2 0 ≡ ok extents
unfolding decode_leaf decode_extent load_field load join32
leaf_decodes = refl

scan_extents-Finds_example : Finds 6 extents (scan_extents leaf 6 2 0)
scan_extents-Finds_example = scan_extents-Finds leaf 6 2 0 extents leaf_decodes

keys_decode : decode_keys (index 31 32) 2 0 ≡ ok (0 ∷ 5 ∷ [])
unfolding decode_keys load_field load
keys_decode = refl

choose_index-Chooses_example : Chooses 6 0 (0 ∷ 5 ∷ []) none (choose_index (index 31 32) 6 2 0 none)
choose_index-Chooses_example =
    choose_index-Chooses (index 31 32) 6 2 0 (0 ∷ 5 ∷ []) none keys_decode

-- A tree of two levels, and a node that is its own child, as a device reads their blocks.
abbrev tree : Image
tree = (30 * 1024, index 31 31) ∷ (31 * 1024, leaf) ∷ []

abbrev ring : Image
ring = (30 * 1024, index 30 30) ∷ []

abbrev tree_reader : Ext4Reader
tree_reader = reader_of 16 (device_on tree)

abbrev ring_reader : Ext4Reader
ring_reader = reader_of 16 (device_on ring)

through_tree : parse_extent_node 2 tree_reader 30 6 ≡ ok 201
unfolding parse_extent_node device_block search_node load_field load join32
through_tree = refl

ring_step : search_node (padded 1024 (index 30 30)) 6 ≡ ok (descend 30)
unfolding search_node load_field load join32
ring_step = refl

abbrev InRing : ℕ → Type 0
InRing block = block ≡ 30

ring_read : device_block ring_reader 30 ≡ ok (padded 1024 (index 30 30))
unfolding device_block
ring_read = refl

ring-IsTrap : IsTrap ring_reader 6 InRing
ring-IsTrap block inside = (
  padded 1024 (index 30 30),
  30,
  subst (λ b. device_block ring_reader b ≡ ok (padded 1024 (index 30 30))) (sym inside) ring_read,
  ring_step,
  refl,
)

parse_extent_node-loops_example : parse_extent_node 7000 ring_reader 30 6 ≡ stuck
parse_extent_node-loops_example =
    parse_extent_node-loops ring_reader 6 InRing ring-IsTrap 7000 30 refl

-- What the root and its child hold.
tree_read :
    (device_block tree_reader 30 ≡ ok (padded 1024 (index 31 31)))
    × (device_block tree_reader 31 ≡ ok (padded 1024 leaf))
unfolding device_block
tree_read = (refl, refl)

tree_fields :
    (load_field extent_header "eh_entries" (padded 1024 (index 31 31)) 0 ≡ ok 2)
    × (load_field extent_header "eh_depth" (padded 1024 leaf) 0 ≡ ok 0)
unfolding load_field load
tree_fields = (refl, refl)

child_fields :
    (i : ℕ)
    → i < 2
    → (load_field extent_idx "ei_leaf_lo" (padded 1024 (index 31 31)) (entry_at i) ≡ ok 31)
      × (load_field extent_idx "ei_leaf_hi" (padded 1024 (index 31 31)) (entry_at i) ≡ ok 0)
unfolding load_field load
child_fields zero h = (refl, refl)
child_fields (suc zero) h = (refl, refl)
child_fields (suc (suc i)) h = absurd (omega arith)

child_31 : join32 31 0 ≡ 31
unfolding join32
child_31 = refl

leaf-IsTree : IsTree 0 tree_reader 31
leaf-IsTree node read =
    subst (λ n. load_field extent_header "eh_depth" n 0 ≡ ok 0) (ok-inj (sym tree_read.1 ∙ read))
      tree_fields.1

tree-IsTree : IsTree 1 tree_reader 30
tree-IsTree node entries i lo hi read many bound low high =
    let it : node ≡ padded 1024 (index 31 31) = ok-inj (sym read ∙ tree_read.0) in
    let two : entries ≡ 2 =
      ok-inj (sym many ∙ ap (λ n. load_field extent_header "eh_entries" n 0) it ∙ tree_fields.0) in
    let (first, second) = child_fields i (omega arith) in
    let is_lo : lo ≡ 31 =
      ok-inj (sym low ∙ ap (λ n. load_field extent_idx "ei_leaf_lo" n (entry_at i)) it ∙ first) in
    let is_hi : hi ≡ 0 =
      ok-inj (sym high ∙ ap (λ n. load_field extent_idx "ei_leaf_hi" n (entry_at i)) it ∙ second) in
    let child : join32 lo hi ≡ 31 = rw (is_lo, is_hi) child_31 in
    subst (IsTree 0 tree_reader) (sym child) leaf-IsTree

parse_extent_node-ends_example : parse_extent_node 2 tree_reader 30 6 ≢ stuck
parse_extent_node-ends_example =
    parse_extent_node-ends tree_reader 6 1 2 30 tree-IsTree (omega arith)
