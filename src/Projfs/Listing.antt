-- ===== src/Projfs/Listing.antt =====
-- An enumeration from its start on lists the directory of the volume.
use linux2win.Base.{
  ℕ, suc, ◌≤◌, ◌≡◌, refl, sym, ap, ◌∙◌, Bool, true, false, Option, none, some, List, [], ◌∷◌, ◌++◌,
  arith, ok, or_else, drop, length, get_elem?, All, map, Result, if◌then◌else◌,
}
use linux2win.Guid.{Guid}
use linux2win.Ext4.Reader.{Ext4Reader}
use linux2win.Vfs.{VfsNode, VfsTree, find_node, narrow}
use linux2win.Vfs.Mirror.{Child, AllShow, IsTree, listing}
use linux2win.Vfs.Loading.{node_at-some}
use linux2win.Projfs.{
  s_ok, CallbackData, DirEnumSession, Projection, BasicInfo, basic_info, widen, is_match,
  set_expression, rel_path, start_dir_enum,
}
use linux2win.Projfs.Scan.{Entry, IsDirBuffer, offers, IsRoomy}
use linux2win.Projfs.Delivery.{scan, delivered, HasEnded, scan-IsScanned}
use linux2win.Projfs.Opening.{start_dir_enum-IsStarted}

-- What of an entry and of a child of the volume is compared: the name, and is it a directory.
abbrev pub face : Entry → List ℕ × Bool
face (name, info) = (name, info.is_directory)

unfoldable pub matching :
    Option (List ℕ → List ℕ → Bool) → List ℕ → List Child → List (List ℕ × Bool)
matching name_match expression [] = []
matching name_match expression ((entry, st) ∷ kids) =
    let rest = matching name_match expression kids in
    if is_match name_match expression (widen entry.name)
    then (widen entry.name, st.is_directory) ∷ rest
    else rest

offers-matching :
    (name_match : Option (List ℕ → List ℕ → Bool)) (t : VfsTree) (expression : List ℕ)
    (ids : List ℕ) (kids : List Child)
    → AllShow t.nodes ids kids
    → (all : List Entry) × (offers name_match (some t) expression ids ≡ ok all)
      × (map face all ≡ matching name_match expression kids)
unfolding offers matching
offers-matching name_match t expression [] [] all = ([], refl, refl)
offers-matching name_match t expression [] (k ∷ ks) all = absurd all
offers-matching name_match t expression (i ∷ is) [] all = absurd all
offers-matching name_match t expression (i ∷ is) ((entry, st) ∷ ks)
      ((node, here, name, inode, kind), shown) =
    let (rest, offered, faces) = offers-matching name_match t expression is ks shown in
    let front = λ (n : List ℕ) (b : Bool) (l : List (List ℕ × Bool)).
      if is_match name_match expression n then (n, b) ∷ l else l in
    (
      (if is_match name_match expression (widen node.name)
          then (widen node.name, basic_info node) ∷ rest
          else rest),
      rw (node_at-some t i node here) (rw offered refl),
      face-if (is_match name_match expression (widen node.name)) (widen node.name, basic_info node)
            rest
          ∙ cc (name, kind, faces),
    )
  where
    face-if :
        (b : Bool) (e : Entry) (l : List Entry)
        → map face (if b then e ∷ l else l) ≡ (if b then face e ∷ map face l else map face l)
    face-if true e l = refl
    face-if false e l = refl

-- The expression that a session has after a first call.
abbrev pub wanted : Option (List ℕ) → List ℕ
wanted none = []
wanted (some expression) = expression

first_expression :
    (search : Option (List ℕ)) (ids : List ℕ)
    → set_expression search
        (record { search_expression = []; matching_entries = ids; current_index = 0 })
      ≡ record { search_expression = wanted search; matching_entries = ids; current_index = 0 }
first_expression none ids = refl
first_expression (some []) ids = refl
first_expression (some (c ∷ cs)) ids = refl

length-map {ℓ κ} :
    {A : Type ℓ} {B : Type κ} (f : A → B) (xs : List A) → length (map f xs) ≡ length xs
length-map f [] = refl
length-map f (x ∷ xs) = ap suc (length-map f xs)

-- For a mount whose tree mirrors a mounted volume and is not locked, whatever a second `lock` does, and
-- buffers that take an entry or answer that they fail: after a start of an enumeration that answers
-- S_OK, calls with empty buffers, none of which asks for a restart, all come back. The path led to a
-- directory; what the buffers hold then is, in order, the children that the volume lists for it and
-- whose names pass the search expression, each once, by name and kind, up to a rest. None is left where a
-- call answered that there are no more files, nor where every buffer takes any entry at first and
-- there are as many buffers as children that pass. A directory that cannot be listed has no children.
pub enumeration-lists :
    (relock : Result (Unit {0})) (fuel depth : ℕ) (r : Ext4Reader) (t : VfsTree) (p q : Projection)
    (start call : CallbackData) (id : Guid) {Buffer : Type 0}
    (name_match : Option (List ℕ → List ℕ → Bool)) (fill : List ℕ → BasicInfo → Buffer → ℕ × Buffer)
    (contents : Buffer → List Entry) (buffers : IsDirBuffer fill contents)
    (search : Option (List ℕ)) (bs : List Buffer)
    → r.mounted ≡ true
    → IsTree fuel depth r t
    → t.held ≡ false
    → p.tree ≡ some t
    → start_dir_enum relock fuel depth p (some start) id ≡ ok (q, s_ok)
    → call.has_context ≡ true
    → call.restart ≡ false
    → All (λ b. contents b ≡ []) bs
    → (found : VfsTree) × (nid : ℕ) × (node : VfsNode) × (kids : List Child) × (after : Projection)
      × (results : List (ℕ × Buffer)) × (rest : List Entry) × (find_node relock fuel depth t
            (narrow (rel_path start))
          ≡ ok (found, some nid))
      × (get_elem? found.nodes nid ≡ some node)
      × (node.is_directory ≡ true)
      × (or_else (listing fuel depth r node.inode_num) [] ≡ ok kids)
      × (scan name_match fill q call id search bs ≡ ok (after, results))
      × (map face (delivered name_match fill contents buffers results ++ rest)
          ≡ matching name_match (wanted search) kids)
      × (HasEnded name_match fill contents buffers results → rest ≡ [])
      × (All (IsRoomy name_match fill contents buffers) bs
          → length (matching name_match (wanted search) kids) ≤ length bs
          → rest ≡ [])
enumeration-lists relock fuel depth r t p q start call id name_match fill contents buffers search bs
      mounted tree free holds e context restart empty =
    let s = start_dir_enum-IsStarted relock fuel depth r t p q start id mounted tree free holds e in
    let (all, offered, faces) =
      offers-matching name_match s.later (wanted search) s.ids s.kids s.shown in
    let fresh : DirEnumSession = record {
      search_expression = [];
      matching_entries = s.ids;
      current_index = 0;
    } in
    let offered' : offers name_match q.tree (set_expression search fresh).search_expression (
          drop (set_expression search fresh).current_index
            (set_expression search fresh).matching_entries)
        ≡ ok all =
      ap
        (λ (x : DirEnumSession).
          offers name_match q.tree x.search_expression (drop x.current_index x.matching_entries))
        (first_expression search s.ids)
      ∙ ap (λ o. offers name_match o (wanted search) s.ids) s.holds
      ∙ offered in
    let n =
      scan-IsScanned name_match fill contents buffers bs q call id search fresh all context restart
        s.session empty offered' in
    (
      s.found,
      s.nid,
      s.node,
      s.kids,
      n.after,
      n.results,
      n.rest,
      s.finds,
      s.here,
      s.directory,
      s.listed,
      n.ran,
      ap (map face) (sym n.whole) ∙ faces,
      n.ends,
      λ room few. n.enough room (omega (arith, few, ap length faces, length-map face all)),
    )
