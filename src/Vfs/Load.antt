-- ===== src/Vfs/Load.antt =====
-- `ensure_children_loaded`: the nodes that it makes mirror the directory on the volume.
use linux2win.Base.{
  ℕ, ◌≡◌, refl, sym, ap, ◌∙◌, subst, inl, inr, Bool, true, false, not, Option, none, some, List, [],
  ok, attempt, or_else, ◌>>=◌, >>=-eq-ok, option_step, ok-inj, Bool-cases, attempt-some,
  attempt-none, some-inj, get_elem?, modify, if◌then◌else◌,
}
use native.Mathlib.Decide.{ℕ_discrete}
use linux2win.Ext4.Reader.{Ext4Reader}
use linux2win.Ext4.Directory.{DirEntryInfo, list_directory}
use linux2win.Vfs.{
  VfsNode, VfsTree, clear_children, mark_loaded, add_children, load_children,
  ensure_children_loaded,
}
use linux2win.Vfs.Store.{
  Grows, Grows-refl, Grows-trans, Grows-modify, get_elem?-modify_same, get_elem?-modify_other,
}
use linux2win.Vfs.Mirror.{
  Child, AllShow, AllShow-grow, listing, Mirrors, Mirrors-grow, IsMirror, IsCached-grow,
  IsRoot-grow, IsTree,
}
use linux2win.Vfs.Loading.{
  keeps_clear, keeps_mark, node_at-some, IsLoading, Stage, add_children-Stage,
}

module _ (fuel depth : ℕ) (r : Ext4Reader) where
  -- A directory after the call, with the children that the volume shows; one that cannot be listed has
  -- none.
  pub record IsLoaded (t s : VfsTree) (id : ℕ) (parent : VfsNode) : Type 0 where
    pub tree : IsTree fuel depth r s
    pub grows : Grows t.nodes s.nodes
    pub node : VfsNode
    pub here : get_elem? s.nodes id ≡ some node
    pub kids : List Child
    pub shown : AllShow s.nodes node.children kids
    pub listed : or_else (listing fuel depth r parent.inode_num) [] ≡ ok kids

  cleared-IsLoading :
      (t : VfsTree) (id : ℕ) (p : VfsNode)
      → IsTree fuel depth r t
      → get_elem? t.nodes id ≡ some p
      → p.children_loaded ≡ false
      → IsLoading fuel depth r (record t { nodes = modify clear_children id t.nodes }) id p []
  cleared-IsLoading t id p tree here unloaded =
      let later = modify clear_children id t.nodes in
      let grows = Grows-modify clear_children id t.nodes keeps_clear in
      record {
        reads = tree.reads;
        node = clear_children p;
        here = get_elem?-modify_same clear_children id t.nodes p here;
        core = keeps_clear p;
        unloaded = unloaded;
        shown = tt;
        others = λ i n e apart.
            Mirrors-grow fuel depth r t.nodes later n grows (
              tree.mirror i n (sym (get_elem?-modify_other clear_children id i t.nodes apart) ∙ e));
        cache = IsCached-grow fuel depth r t.nodes later t.node_cache grows tree.cache;
        root = IsRoot-grow fuel depth r t.nodes later t.root grows tree.root;
      }

  marked-IsMirror :
      (t : VfsTree) (id : ℕ) (p : VfsNode) (kids : List Child)
      → listing fuel depth r p.inode_num ≡ ok kids
      → IsLoading fuel depth r t id p kids
      → IsMirror fuel depth r (modify mark_loaded id t.nodes)
  marked-IsMirror t id p kids listed l i n e =
      let later = modify mark_loaded id t.nodes in
      let grows = Grows-modify mark_loaded id t.nodes keeps_mark in
      elim (ℕ_discrete i id) [
        | yes at ↦
            subst (Mirrors fuel depth r later)
              (some-inj (
                sym (get_elem?-modify_same mark_loaded id t.nodes l.node l.here)
                ∙ (subst (λ k. get_elem? later k ≡ some n) at e)))
              (
                (λ _. (
                  kids,
                  ap (listing fuel depth r) (sym l.core.inode) ∙ listed,
                  AllShow-grow t.nodes later l.node.children kids grows l.shown,
                )),
                λ e. cc,
              )
        | no apart ↦
            Mirrors-grow fuel depth r t.nodes later n grows
              (l.others i n (sym (get_elem?-modify_other mark_loaded id i t.nodes apart) ∙ e) apart)
      ]

  marked-IsLoaded :
      (t c m : VfsTree) (id : ℕ) (p : VfsNode) (entries : List DirEntryInfo)
      → list_directory fuel depth r p.inode_num ≡ ok entries
      → Grows t.nodes c.nodes
      → (stage : Stage fuel depth r c m id p [] entries)
      → IsLoaded t (record m { nodes = modify mark_loaded id m.nodes }) id p
  unfolding listing
  marked-IsLoaded t c m id p entries listed before stage =
      let l = stage.loading in
      let later = modify mark_loaded id m.nodes in
      let grows = Grows-modify mark_loaded id m.nodes keeps_mark in
      let whole : listing fuel depth r p.inode_num ≡ ok stage.kids = rw listed stage.seen in
      record {
        tree = record {
          reads = l.reads;
          mirror = marked-IsMirror m id p stage.kids whole l;
          cache = IsCached-grow fuel depth r m.nodes later m.node_cache grows l.cache;
          root = IsRoot-grow fuel depth r m.nodes later m.root grows l.root;
        };
        grows =
            Grows-trans t.nodes m.nodes later
              (Grows-trans t.nodes c.nodes m.nodes before stage.grows) grows;
        node = mark_loaded l.node;
        here = get_elem?-modify_same mark_loaded id m.nodes l.node l.here;
        kids = stage.kids;
        shown = AllShow-grow m.nodes later l.node.children stage.kids grows l.shown;
        listed = rw whole refl;
      }

  -- Nothing to do: the node is as it shall be.
  kept-IsLoaded :
      (t : VfsTree) (id : ℕ) (p : VfsNode) (kids : List Child)
      → IsTree fuel depth r t
      → get_elem? t.nodes id ≡ some p
      → AllShow t.nodes p.children kids
      → or_else (listing fuel depth r p.inode_num) [] ≡ ok kids
      → IsLoaded t t id p
  kept-IsLoaded t id p kids tree here shown listed = record {
    tree = tree;
    grows = Grows-refl t.nodes;
    node = p;
    here = here;
    kids = kids;
    shown = shown;
    listed = listed;
  }

  unlisted :
      (number : ℕ)
      → attempt (list_directory fuel depth r number) ≡ ok none
      → or_else (listing fuel depth r number) [] ≡ ok []
  unfolding listing
  unlisted number e = rw (attempt-none (list_directory fuel depth r number) e) refl

  load_children-IsLoaded :
      (t s : VfsTree) (id : ℕ) (p : VfsNode) (b : Bool)
      → IsTree fuel depth r t
      → get_elem? t.nodes id ≡ some p
      → p.children_loaded ≡ false
      → load_children fuel depth t r id p ≡ ok (s, b)
      → IsLoaded t s id p
  unfolding load_children
  load_children-IsLoaded t s id p b tree here unloaded e =
      let clear = record t { nodes = modify clear_children id t.nodes } in
      elim (option_step (attempt (list_directory fuel depth r p.inode_num)) (ok (t, false))
        (λ entries. add_children fuel depth clear r id p entries >>= λ m.
          ok (record m { nodes = modify mark_loaded id m.nodes }, true))
        e) [
          | inl (failing, e') ↦
              subst (λ x. IsLoaded t x id p) (ap (λ x. x.0) (ok-inj e'))
                (kept-IsLoaded t id p [] tree here
                  (subst (λ ids. AllShow t.nodes ids []) (sym ((tree.mirror id p here).1 unloaded))
                    tt)
                  (unlisted p.inode_num failing))
          | inr (entries, listed, e') ↦
              let (m, em, e'') =
                >>=-eq-ok (add_children fuel depth clear r id p entries)
                  (λ m. ok (record m { nodes = modify mark_loaded id m.nodes }, true)) e' in
              subst (λ x. IsLoaded t x id p) (ap (λ x. x.0) (ok-inj e''))
                (marked-IsLoaded t clear m id p entries
                  (attempt-some (list_directory fuel depth r p.inode_num) listed)
                  (Grows-modify clear_children id t.nodes keeps_clear)
                  (add_children-Stage fuel depth r entries clear m id p []
                    (cleared-IsLoading t id p tree here unloaded) em))
        ]

  pub ensure-step :
      (t : VfsTree) (id : ℕ) (p : VfsNode)
      → t.reader ≡ some r
      → get_elem? t.nodes id ≡ some p
      → p.is_directory ≡ true
      → ensure_children_loaded fuel depth t id
        ≡ (if p.children_loaded then ok (t, true) else load_children fuel depth t r id p)
  unfolding ensure_children_loaded
  ensure-step t id p reads here directory =
      ap
        (λ m. m >>= λ parent. if not parent.is_directory then ok (t, false) else elim t.reader [
          | none ↦ ok (t, false)
          | some r ↦
              if parent.children_loaded
              then ok (t, true)
              else load_children fuel depth t r id parent
        ])
        (node_at-some t id p here)
      ∙ ap
          (λ (b : Bool). if not b then ok (t, false) else elim t.reader [
            | none ↦ ok (t, false)
            | some r ↦ if p.children_loaded then ok (t, true) else load_children fuel depth t r id p
          ])
          directory
      ∙ ap
          (λ (o : Option Ext4Reader). elim o [
            | none ↦ ok (t, false)
            | some r ↦ if p.children_loaded then ok (t, true) else load_children fuel depth t r id p
          ])
          reads

  -- A call on a directory of the tree leaves a tree that mirrors the volume, in which this directory is
  -- loaded, unless it cannot be listed.
  pub ensure_children_loaded-IsLoaded :
      (t s : VfsTree) (id : ℕ) (p : VfsNode) (b : Bool)
      → IsTree fuel depth r t
      → get_elem? t.nodes id ≡ some p
      → p.is_directory ≡ true
      → ensure_children_loaded fuel depth t id ≡ ok (s, b)
      → IsLoaded t s id p
  ensure_children_loaded-IsLoaded t s id p b tree here directory e =
      let e' = sym (ensure-step t id p tree.reads here directory) ∙ e in
      elim (Bool-cases p.children_loaded) [
        | inl loaded ↦
            let (kids, listed, shown) = (tree.mirror id p here).0 loaded in
            subst (λ x. IsLoaded t x id p)
              (ap (λ x. x.0)
                (ok-inj (
                  subst
                    (λ c.
                      (if c then ok (t, true) else load_children fuel depth t r id p) ≡ ok (s, b))
                    loaded e')))
              (kept-IsLoaded t id p kids tree here shown (rw listed refl))
        | inr unloaded ↦ load_children-IsLoaded t s id p b tree here unloaded (
            subst (λ c. (if c then ok (t, true) else load_children fuel depth t r id p) ≡ ok (s, b))
              unloaded e')
      ]
