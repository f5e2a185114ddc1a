-- ===== src/Vfs/Loading.antt =====
-- The loop of `ensure_children_loaded` over the entries: one directory is being filled, all other nodes
-- mirror the volume.
use linux2win.Base.{
  ℕ, ◌≡◌, ◌≢◌, refl, sym, ◌∙◌, subst, inl, inr, false, none, some, List, [], ◌∷◌, ◌++◌, All, ok,
  attempt, option_step, ok-inj, length, get_elem?, modify,
}
use mathlib.Core.List.{append_assoc, append-nil}
use linux2win.Ext4.Reader.{Ext4Reader}
use linux2win.Ext4.File.{FileStat, stat_inode}
use linux2win.Ext4.Directory.{DirEntryInfo}
use linux2win.Vfs.{
  VfsNode, VfsTree, node_at, child_node, push_child, clear_children, mark_loaded, add_child,
  add_children,
}
use linux2win.Vfs.Store.{
  Core, Grows, Grows-refl, Grows-trans, Grows-append, Grows-modify, get_elem?-modify_same,
  get_elem?-modify_other, length-modify, get_elem?-left, get_elem?-last, snoc-cases,
}
use linux2win.Vfs.Mirror.{
  Child, AllShow, AllShow-grow, AllShow-snoc, visible, Mirrors, Mirrors-grow, IsCached,
  IsCached-grow, IsRoot, IsRoot-grow,
}

keeps_push : (child : ℕ) (a : VfsNode) → Core a (push_child child a)
keeps_push child a = record { name = refl; path = refl; inode = refl; directory = refl }

pub keeps_clear : (a : VfsNode) → Core a (clear_children a)
keeps_clear a = record { name = refl; path = refl; inode = refl; directory = refl }

pub keeps_mark : (a : VfsNode) → Core a (mark_loaded a)
keeps_mark a = record { name = refl; path = refl; inode = refl; directory = refl }

pub node_at-some :
    (t : VfsTree) (id : ℕ) (node : VfsNode)
    → get_elem? t.nodes id ≡ some node
    → node_at t id ≡ ok node
unfolding node_at
node_at-some t id node e = rw (e, node_at) refl

module _ (fuel depth : ℕ) (r : Ext4Reader) where
  -- The directory `id` has got some of its children; all other nodes are as they shall be.
  pub record IsLoading (t : VfsTree) (id : ℕ) (parent : VfsNode) (done : List Child) : Type 0 where
    pub reads : t.reader ≡ some r
    pub node : VfsNode
    pub here : get_elem? t.nodes id ≡ some node
    pub core : Core parent node
    pub unloaded : node.children_loaded ≡ false
    pub shown : AllShow t.nodes node.children done
    pub others :
        (i : ℕ) (n : VfsNode)
        → get_elem? t.nodes i ≡ some n
        → i ≢ id
        → Mirrors fuel depth r t.nodes n
    pub cache : All (IsCached fuel depth r t.nodes) t.node_cache
    pub root : IsRoot fuel depth r t.nodes t.root

  Mirrors-child :
      (nodes : List VfsNode) (parent : VfsNode) (entry : DirEntryInfo) (st : FileStat)
      → Mirrors fuel depth r nodes (child_node parent entry st)
  Mirrors-child nodes parent entry st = ((λ e. cc), λ e. refl)

  -- Changing one node and putting a bare one behind all leaves the others as they were.
  others-step :
      (f : VfsNode → VfsNode) (id : ℕ) (xs : List VfsNode) (child : VfsNode) (i : ℕ) (n : VfsNode)
      → ((nodes : List VfsNode) → Mirrors fuel depth r nodes child)
      → ((m : VfsNode) → get_elem? xs i ≡ some m → i ≢ id → Mirrors fuel depth r xs m)
      → Grows xs (modify f id xs ++ (child ∷ []))
      → i ≢ id
      → get_elem? (modify f id xs ++ (child ∷ [])) i ≡ some n
      → Mirrors fuel depth r (modify f id xs ++ (child ∷ [])) n
  others-step f id xs child i n bare old grows apart e =
      elim (snoc-cases (modify f id xs) child i n e) [
        | inl e' ↦
            Mirrors-grow fuel depth r xs (modify f id xs ++ (child ∷ [])) n grows
              (old n (sym (get_elem?-modify_other f id i xs apart) ∙ e') apart)
        | inr new ↦
            subst (Mirrors fuel depth r (modify f id xs ++ (child ∷ []))) new
              (bare (modify f id xs ++ (child ∷ [])))
      ]

  add_child-Grows :
      (t : VfsTree) (id : ℕ) (parent : VfsNode) (entry : DirEntryInfo) (st : FileStat)
      → Grows t.nodes (add_child t id parent entry st).nodes
  unfolding add_child
  add_child-Grows t id parent entry st =
      let f = push_child (length t.nodes) in
      let child = child_node parent entry st in
      Grows-trans t.nodes (modify f id t.nodes) (modify f id t.nodes ++ (child ∷ []))
        (Grows-modify f id t.nodes (keeps_push (length t.nodes)))
        (Grows-append (modify f id t.nodes) (child ∷ []))

  add_child-last :
      (t : VfsTree) (id : ℕ) (parent : VfsNode) (entry : DirEntryInfo) (st : FileStat)
      → get_elem? (add_child t id parent entry st).nodes (length t.nodes)
        ≡ some (child_node parent entry st)
  unfolding add_child
  add_child-last t id parent entry st =
      let f = push_child (length t.nodes) in
      let child = child_node parent entry st in
      subst (λ k. get_elem? (modify f id t.nodes ++ (child ∷ [])) k ≡ some child)
        (length-modify f id t.nodes) (get_elem?-last (modify f id t.nodes) child)

  add_child-IsLoading :
      (t : VfsTree) (id : ℕ) (parent : VfsNode) (done : List Child) (entry : DirEntryInfo)
      (st : FileStat)
      → IsLoading t id parent done
      → IsLoading (add_child t id parent entry st) id parent (done ++ ((entry, st) ∷ []))
  unfolding add_child
  add_child-IsLoading t id parent done entry st l =
      let new = length t.nodes in
      let f = push_child new in
      let child = child_node parent entry st in
      let later = modify f id t.nodes ++ (child ∷ []) in
      let grows = add_child-Grows t id parent entry st in
      let last = add_child-last t id parent entry st in
      record {
        reads = l.reads;
        node = f l.node;
        here =
            get_elem?-left (modify f id t.nodes) (child ∷ []) id (f l.node)
              (get_elem?-modify_same f id t.nodes l.node l.here);
        core = record {
          name = l.core.name;
          path = l.core.path;
          inode = l.core.inode;
          directory = l.core.directory;
        };
        unloaded = l.unloaded;
        shown =
            AllShow-snoc later l.node.children done new (entry, st)
              (AllShow-grow t.nodes later l.node.children done grows l.shown)
              (child, last, refl, refl, refl);
        others = λ i n e apart.
            others-step f id t.nodes child i n (λ nodes. Mirrors-child nodes parent entry st)
              (λ m. l.others i m) grows apart e;
        cache = (
          (child, last, refl),
          IsCached-grow fuel depth r t.nodes later t.node_cache grows l.cache,
        );
        root = IsRoot-grow fuel depth r t.nodes later t.root grows l.root;
      }

  -- What loading `entries` behind `done` leaves.
  pub record Stage (t s : VfsTree) (id : ℕ) (parent : VfsNode) (done : List Child)
      (entries : List DirEntryInfo) : Type 0 where
    pub kids : List Child
    pub seen : visible fuel depth r entries ≡ ok kids
    pub loading : IsLoading s id parent (done ++ kids)
    pub grows : Grows t.nodes s.nodes

  visible-skip :
      (entry : DirEntryInfo) (entries : List DirEntryInfo)
      → attempt (stat_inode fuel depth r entry.inode) ≡ ok none
      → visible fuel depth r (entry ∷ entries) ≡ visible fuel depth r entries
  unfolding visible
  visible-skip entry entries e = rw e refl

  visible-keep :
      (entry : DirEntryInfo) (entries : List DirEntryInfo) (st : FileStat) (kids : List Child)
      → attempt (stat_inode fuel depth r entry.inode) ≡ ok (some st)
      → visible fuel depth r entries ≡ ok kids
      → visible fuel depth r (entry ∷ entries) ≡ ok ((entry, st) ∷ kids)
  unfolding visible
  visible-keep entry entries st kids e e' = rw e (rw e' refl)

  pub add_children-Stage :
      (entries : List DirEntryInfo) (t s : VfsTree) (id : ℕ) (parent : VfsNode) (done : List Child)
      → IsLoading t id parent done
      → add_children fuel depth t r id parent entries ≡ ok s
      → Stage t s id parent done entries
  unfolding add_children visible
  add_children-Stage [] t s id parent done l e =
      subst (λ x. Stage t x id parent done []) (ok-inj e)
        (record {
          kids = [];
          seen = refl;
          loading = subst (IsLoading t id parent) (sym (append-nil done)) l;
          grows = Grows-refl t.nodes;
        })
  add_children-Stage (entry ∷ entries) t s id parent done l e =
      elim (option_step (attempt (stat_inode fuel depth r entry.inode))
        (add_children fuel depth t r id parent entries)
        (λ st. add_children fuel depth (add_child t id parent entry st) r id parent entries) e) [
          | inl (none_read, e') ↦
              let stage = add_children-Stage entries t s id parent done l e' in
              record {
                kids = stage.kids;
                seen = visible-skip entry entries none_read ∙ stage.seen;
                loading = stage.loading;
                grows = stage.grows;
              }
          | inr (st, some_read, e') ↦
              let stage =
                add_children-Stage entries (add_child t id parent entry st) s id parent
                  (done ++ ((entry, st) ∷ [])) (add_child-IsLoading t id parent done entry st l)
                  e' in
              record {
                kids = (entry, st) ∷ stage.kids;
                seen = visible-keep entry entries st stage.kids some_read stage.seen;
                loading =
                    subst (IsLoading s id parent) (append_assoc done ((entry, st) ∷ []) stage.kids)
                      stage.loading;
                grows =
                    Grows-trans t.nodes (add_child t id parent entry st).nodes s.nodes
                      (add_child-Grows t id parent entry st) stage.grows;
              }
        ]
