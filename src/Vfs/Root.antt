-- ===== src/Vfs/Root.antt =====
-- `get_root`: the lock, and the root that it makes.
use linux2win.Base.{
  ℕ, ◌≡◌, refl, sym, ap, ◌∙◌, subst, inl, inr, Bool, true, false, Option, none, some, List, [], ◌∷◌,
  ◌++◌, Result, ok, attempt, ◌>>=◌, ◌>>◌, >>=-eq-ok, ok-inj, length, if◌then◌else◌, same,
  Option-cases,
}
use linux2win.Ext4.Reader.{Ext4Reader}
use linux2win.Ext4.File.{FileStat, stat_inode}
use linux2win.Ext4.Path.{root_inode}
use linux2win.Vfs.Names.{normalize_path}
use linux2win.Vfs.{VfsNode, VfsTree, root_node, with_root, load_root, root_body, guarded, get_root}
use linux2win.Vfs.Store.{Grows, Grows-refl, Grows-append, get_elem?-last, snoc-cases}
use linux2win.Vfs.Mirror.{Mirrors, Mirrors-grow, IsCached-grow, IsRoot, IsTree}

-- What a `lock_guard` with a mutex that may be locked twice adds.
pub guarded-ok {ℓ} :
    {A : Type ℓ} (body : VfsTree → Result (VfsTree × A)) (t s : VfsTree) (a : A)
    → guarded (ok tt) body t ≡ ok (s, a)
    → (m : VfsTree) × (body (record t { held = true }) ≡ ok (m, a))
      × (record m { held = t.held } ≡ s)
unfolding guarded
guarded-ok {A = A} body t s a e =
    let entered : (body (record t { held = true }) >>= λ (x : VfsTree × A).
    ok (record x.0 { held = t.held }, x.1))
        ≡ ok (s, a) =
      sym (
        skip t.held (
          body (record t { held = true }) >>= λ (x : VfsTree × A).
          ok (record x.0 { held = t.held }, x.1)))
      ∙ e in
    let (x, ran, e') =
      >>=-eq-ok {A = VfsTree × A} (body (record t { held = true }))
        (λ x. ok (record x.0 { held = t.held }, x.1)) entered in
    (x.0, ran ∙ ap (λ b. ok (x.0, b)) (ap (λ y. y.1) (ok-inj e')), ap (λ y. y.0) (ok-inj e'))
  where
    skip : (b : Bool) (rest : Result (VfsTree × A)) → ((if b then ok tt else ok tt) >> rest) ≡ rest
    skip true rest = refl
    skip false rest = refl

module _ (fuel depth : ℕ) (r : Ext4Reader) where
  pub IsTree-held :
      (t : VfsTree) (b : Bool) → IsTree fuel depth r t → IsTree fuel depth r (record t { held = b })
  IsTree-held t b tree = record {
    reads = tree.reads;
    mirror = tree.mirror;
    cache = tree.cache;
    root = tree.root;
  }

  -- The root that is found; where none is, its inode cannot be read.
  abbrev pub IsFoundRoot : List VfsNode → Option ℕ → Type 0
  IsFoundRoot nodes none = attempt (stat_inode fuel depth r root_inode) ≡ ok none
  IsFoundRoot nodes (some id) = IsRoot fuel depth r nodes (some id)

  with_root-IsTree :
      (t : VfsTree) (st : FileStat)
      → IsTree fuel depth r t
      → IsTree fuel depth r (with_root t (some st)).0
  unfolding normalize_path
  with_root-IsTree t st tree =
      let new = root_node st in
      let later = t.nodes ++ (new ∷ []) in
      let grows = Grows-append t.nodes (new ∷ []) in
      let last = get_elem?-last t.nodes new in
      record {
        reads = tree.reads;
        mirror = λ i n e. elim (snoc-cases t.nodes new i n e) [
          | inl old ↦ Mirrors-grow fuel depth r t.nodes later n grows (tree.mirror i n old)
          | inr same ↦ subst (Mirrors fuel depth r later) same ((λ e. cc), λ e. refl)
        ];
        cache = (
          (new, last, refl),
          IsCached-grow fuel depth r t.nodes later t.node_cache grows tree.cache,
        );
        root = (new, last, refl, refl);
      }

  pub record IsRooted (t s : VfsTree) (o : Option ℕ) : Type 0 where
    pub tree : IsTree fuel depth r s
    pub grows : Grows t.nodes s.nodes
    pub found : IsFoundRoot s.nodes o

  rooted :
      (t s : VfsTree) (o p : Option ℕ) (m : VfsTree)
      → IsRooted t m p
      → ◌≡◌ {A = Result (VfsTree × Option ℕ)} (ok (m, p)) (ok (s, o))
      → IsRooted t s o
  rooted t s o p m h e = subst (λ (x : VfsTree × Option ℕ). IsRooted t x.0 x.1) (ok-inj e) h

  loaded_root :
      (t s : VfsTree) (o : Option ℕ) (call : Option FileStat)
      → IsTree fuel depth r t
      → attempt (stat_inode fuel depth r root_inode) ≡ ok call
      → ◌≡◌ {A = Result (VfsTree × Option ℕ)} (ok (with_root t call)) (ok (s, o))
      → IsRooted t s o
  loaded_root t s o none tree read e =
      rooted t s o none t (record { tree = tree; grows = Grows-refl t.nodes; found = read }) e
  loaded_root t s o (some st) tree read e =
      rooted t s o (some (length t.nodes)) (with_root t (some st)).0
        (record {
          tree = with_root-IsTree t st tree;
          grows = Grows-append t.nodes (root_node st ∷ []);
          found = (root_node st, get_elem?-last t.nodes (root_node st), refl, refl);
        })
        e

  root_body-IsRooted :
      (t s : VfsTree) (o : Option ℕ)
      → r.mounted ≡ true
      → IsTree fuel depth r t
      → root_body fuel depth t ≡ ok (s, o)
      → IsRooted t s o
  unfolding root_body
  root_body-IsRooted t s o mounted tree e = elim (Option-cases t.root) [
    | inr (id, there) ↦
        rooted t s o (some id) t
          (record {
            tree = tree;
            grows = Grows-refl t.nodes;
            found = subst (IsRoot fuel depth r t.nodes) there tree.root;
          })
          (sym (
              ap
                (λ (x : Option ℕ). elim x [
                  | some id ↦ ok (t, some id)
                  | none ↦ load_root fuel depth t t.reader
                ])
                there)
            ∙ e)
    | inl missing ↦
        let opened : root_body fuel depth t
            ≡ (attempt (stat_inode fuel depth r root_inode) >>= λ st. ok (with_root t st)) =
          ap
            (λ (x : Option ℕ). elim x [
              | some id ↦ ok (t, some id)
              | none ↦ load_root fuel depth t t.reader
            ])
            missing
          ∙ ap (load_root fuel depth t) tree.reads
          ∙ rw mounted refl in
        let (call, read, e') =
          >>=-eq-ok {A = Option FileStat} (attempt (stat_inode fuel depth r root_inode))
            (λ st. ok (with_root t st)) (sym opened ∙ e) in
        loaded_root t s o call tree read e'
  ]

  pub get_root-IsRooted :
      (t s : VfsTree) (o : Option ℕ)
      → r.mounted ≡ true
      → IsTree fuel depth r t
      → get_root (ok tt) fuel depth t ≡ ok (s, o)
      → IsRooted t s o
  unfolding get_root
  get_root-IsRooted t s o mounted tree e =
      let (m, ran, held) = guarded-ok (root_body fuel depth) t s o e in
      let h =
        root_body-IsRooted (record t { held = true }) m o mounted (IsTree-held t true tree) ran in
      subst (λ x. IsRooted t x o) held
        (record { tree = IsTree-held m t.held h.tree; grows = h.grows; found = h.found })
