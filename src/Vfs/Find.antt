-- ===== src/Vfs/Find.antt =====
-- `find_node`: with the lock and the cache.
use linux2win.Base.{
  ℕ, ◌≡◌, refl, sym, ap, ◌∙◌, subst, ◌⊎◌, inl, inr, true, false, Option, none, some, List, [], ◌∷◌,
  Bytes, All, Result, ok, failed, stuck, ◌>>=◌, ◌≢◌, fault, attempt, >>=-eq-ok, ok-inj, some-inj,
  Bool-cases, get_elem?, same, same→eq, Option-cases,
}
use linux2win.Ext4.Reader.{Ext4Reader}
use linux2win.Ext4.File.{stat_inode}
use linux2win.Ext4.Path.{root_inode, split_path}
use linux2win.Vfs.Names.{normalize_path, cut_path}
use linux2win.Vfs.Cuts.{cut_path-normalize}
use linux2win.Vfs.{
  VfsNode, VfsTree, new_tree, cached, from_root, guarded, get_root, or_descend, find_body,
  find_node,
}
use linux2win.Vfs.Store.{Grows, Grows-refl, Grows-trans}
use linux2win.Vfs.Mirror.{resolve, IsCached, IsTree}
use linux2win.Vfs.Lookup.{Answers, descend-IsAnswer}
use linux2win.Vfs.Root.{guarded-ok, IsTree-held, IsRooted, get_root-IsRooted}

module _ (fuel depth : ℕ) (r : Ext4Reader) where
  -- What a lookup of a path finds: no root, since its inode cannot be read; a node of the cache whose
  -- own path is the same but for its slashes; or what the volume has at the path.
  abbrev pub FindsPath : VfsTree → VfsTree → Bytes → Option ℕ → Type 0
  FindsPath t s path o =
      ((o ≡ none) × (attempt (stat_inode fuel depth r root_inode) ≡ ok none))
      ⊎ (((id : ℕ) × (node : VfsNode) × (cached (normalize_path path) t.node_cache ≡ some id)
            × (o ≡ some id)
            × (get_elem? s.nodes id ≡ some node)
            × (normalize_path node.relative_path ≡ normalize_path path))
          ⊎ Answers fuel depth r s.nodes o (resolve fuel depth r root_inode true (split_path path)))

  cached-IsCached :
      (nodes : List VfsNode) (cache : List (Bytes × ℕ)) (key : Bytes) (id : ℕ)
      → All (IsCached fuel depth r nodes) cache
      → cached key cache ≡ some id
      → IsCached fuel depth r nodes (key, id)
  unfolding cached
  cached-IsCached nodes [] key id all e = cc
  cached-IsCached nodes ((k, node) ∷ rest) key id (this, all) e = elim (Bool-cases (same k key)) [
    | inl hit ↦
        subst (λ x. IsCached fuel depth r nodes (key, x)) (some-inj (sym (rw hit refl) ∙ e))
          (subst (λ x. IsCached fuel depth r nodes (x, node)) (same→eq k key hit) this)
    | inr miss ↦ cached-IsCached nodes rest key id all (sym (rw miss refl) ∙ e)
  ]

  record IsLooked (t s : VfsTree) (path : Bytes) (o : Option ℕ) : Type 0 where
    pub tree : IsTree fuel depth r s
    pub grows : Grows t.nodes s.nodes
    finds : FindsPath t s path o

  resolve-root :
      (path : Bytes)
      → normalize_path path ≡ []
      → resolve fuel depth r root_inode true (split_path path) ≡ ok (some root_inode)
  unfolding resolve cut_path
  resolve-root path empty =
      ap (resolve fuel depth r root_inode true) (sym (cut_path-normalize path) ∙ ap cut_path empty)

  IsLooked-root :
      (t s : VfsTree) (path : Bytes) (o : Option ℕ)
      → normalize_path path ≡ []
      → IsRooted fuel depth r t s o
      → IsLooked t s path o
  IsLooked-root t s path none empty h = record {
    tree = h.tree;
    grows = h.grows;
    finds = inl (refl, h.found);
  }
  IsLooked-root t s path (some id) empty h =
      let (node, here, inode, kind) = h.found in
      record {
        tree = h.tree;
        grows = h.grows;
        finds = inr (inr (node, here, resolve-root path empty ∙ ap (λ n. ok (some n)) (sym inode)));
      }

  IsLooked-down :
      (t m s : VfsTree) (path : Bytes) (root o : Option ℕ)
      → IsRooted fuel depth r t m root
      → from_root fuel depth (cut_path (normalize_path path)) (m, root) ≡ ok (s, o)
      → IsLooked t s path o
  IsLooked-down t m s path none o h e =
      subst (λ (x : VfsTree × Option ℕ). IsLooked t x.0 path x.1) (ok-inj e)
        (record { tree = h.tree; grows = h.grows; finds = inl (refl, h.found) })
  IsLooked-down t m s path (some id) o h e =
      let (node, here, inode, kind) = h.found in
      let a =
        descend-IsAnswer fuel depth r (cut_path (normalize_path path)) m s id node o h.tree here
          e in
      let volume : resolve fuel depth r node.inode_num node.is_directory
            (cut_path (normalize_path path))
          ≡ resolve fuel depth r root_inode true (split_path path) =
        cc (inode, kind, cut_path-normalize path) in
      record {
        tree = a.tree;
        grows = Grows-trans t.nodes m.nodes s.nodes h.grows a.grows;
        finds = inr (inr (subst (Answers fuel depth r s.nodes o) volume a.answers));
      }

  find_body-IsLooked :
      (t s : VfsTree) (path : Bytes) (o : Option ℕ)
      → r.mounted ≡ true
      → IsTree fuel depth r t
      → find_body (ok tt) fuel depth path t ≡ ok (s, o)
      → IsLooked t s path o
  unfolding find_body
  find_body-IsLooked t s path o mounted tree e =
      let norm = normalize_path path in
      let parts = cut_path norm in
      let further = or_descend (ok tt) fuel depth t parts (cached norm t.node_cache) in
      elim (Bool-cases (same norm [])) [
        | inl empty ↦
            let opened : find_body (ok tt) fuel depth path t ≡ get_root (ok tt) fuel depth t =
              rw empty refl in
            IsLooked-root t s path o (same→eq norm [] empty)
              (get_root-IsRooted fuel depth r t s o mounted tree (sym opened ∙ e))
        | inr filled ↦
            let opened : find_body (ok tt) fuel depth path t ≡ further = rw filled refl in
            elim (Option-cases (cached norm t.node_cache)) [
              | inr (id, hit) ↦
                  let (node, here, own) =
                    cached-IsCached t.nodes t.node_cache norm id tree.cache hit in
                  subst (λ (x : VfsTree × Option ℕ). IsLooked t x.0 path x.1)
                    (ok-inj (sym (opened ∙ ap (or_descend (ok tt) fuel depth t parts) hit) ∙ e))
                    (record {
                      tree = tree;
                      grows = Grows-refl t.nodes;
                      finds = inr (inl (id, node, hit, refl, here, own));
                    })
              | inl miss ↦
                  let (x, rooted, e') =
                    >>=-eq-ok {A = VfsTree × Option ℕ} (get_root (ok tt) fuel depth t)
                      (from_root fuel depth parts)
                      (sym (opened ∙ ap (or_descend (ok tt) fuel depth t parts) miss) ∙ e) in
                  IsLooked-down t x.0 s path x.1 o
                    (get_root-IsRooted fuel depth r t x.0 x.1 mounted tree rooted) e'
            ]
      ]

  pub find_node-IsTree :
      (t s : VfsTree) (path : Bytes) (o : Option ℕ)
      → r.mounted ≡ true
      → IsTree fuel depth r t
      → t.held ≡ false
      → find_node (ok tt) fuel depth t path ≡ ok (s, o)
      → IsTree fuel depth r s × (s.held ≡ false) × Grows t.nodes s.nodes × FindsPath t s path o
  unfolding find_node
  find_node-IsTree t s path o mounted tree free e =
      let (m, ran, held) = guarded-ok (find_body (ok tt) fuel depth path) t s o e in
      let h =
        find_body-IsLooked (record t { held = true }) m path o mounted
          (IsTree-held fuel depth r t true tree) ran in
      subst
        (λ x.
          IsTree fuel depth r x × (x.held ≡ false) × Grows t.nodes x.nodes × FindsPath t x path o)
        held (IsTree-held fuel depth r m t.held h.tree, free, h.grows, h.finds)

-- Where a second `lock` by the same thread is undefined, so is each lookup by a thread that holds no lock
-- of a path that is empty or not in the cache: `find_node` calls `get_root` with the mutex locked.
pub find_node-relock :
    (fuel depth : ℕ) (t : VfsTree) (path : Bytes)
    → t.held ≡ false
    → (normalize_path path ≡ []) ⊎ (cached (normalize_path path) t.node_cache ≡ none)
    → find_node fault fuel depth t path ≡ fault
unfolding find_node guarded find_body get_root
find_node-relock fuel depth t path free (inl empty) = rw free (rw empty refl)
find_node-relock fuel depth t path free (inr miss) =
    rw free (elim (Bool-cases (same (normalize_path path) [])) [
      | inl empty ↦ rw empty refl
      | inr filled ↦ rw filled (rw miss refl)
    ])

-- A lookup that takes the lock once only goes alike, whatever a second `lock` would do.
same_lookup :
    (relock : Result (Unit {0})) (fuel depth : ℕ) (t : VfsTree) (path : Bytes)
    (x : VfsTree × Option ℕ)
    → ((next : Unit {0} → Result (VfsTree × Option ℕ)) (a : VfsTree × Option ℕ)
        → (relock >>= next) ≢ ok a)
    → t.held ≡ false
    → find_node relock fuel depth t path ≡ ok x
    → find_node (ok tt) fuel depth t path ≡ ok x
unfolding find_node guarded find_body get_root
same_lookup relock fuel depth t path x stops free e =
    elim (Bool-cases (same (normalize_path path) [])) [
      | inl empty ↦
          let (a, ran, _) = >>=-eq-ok {A = VfsTree × Option ℕ} _ _ (rw (free, empty) at e) in
          absurd (stops _ a ran)
      | inr filled ↦ elim (Option-cases (cached (normalize_path path) t.node_cache)) [
        | inl miss ↦
            let (a, ran, _) =
              >>=-eq-ok {A = VfsTree × Option ℕ} _ _ (rw (free, filled, miss) at e) in
            let (b, ran', _) = >>=-eq-ok {A = VfsTree × Option ℕ} _ _ ran in absurd (stops _ b ran')
        | inr (id, hit) ↦ rw (free, filled, hit) (rw (free, filled, hit) at e)
      ]
    ]

-- A lookup that comes back, whatever a second `lock` does, is the one of a lock that may be taken twice.
pub find_node-any :
    (relock : Result (Unit {0})) (fuel depth : ℕ) (t : VfsTree) (path : Bytes)
    (x : VfsTree × Option ℕ)
    → t.held ≡ false
    → find_node relock fuel depth t path ≡ ok x
    → find_node (ok tt) fuel depth t path ≡ ok x
find_node-any (ok tt) fuel depth t path x free e = e
find_node-any failed fuel depth t path x free e =
    same_lookup failed fuel depth t path x (λ next a e'. cc) free e
find_node-any fault fuel depth t path x free e =
    same_lookup fault fuel depth t path x (λ next a e'. cc) free e
find_node-any stuck fuel depth t path x free e =
    same_lookup stuck fuel depth t path x (λ next a e'. cc) free e

-- A tree that has just been made mirrors its volume.
new_tree-IsTree : (fuel depth : ℕ) (r : Ext4Reader) → IsTree fuel depth r (new_tree (some r))
new_tree-IsTree fuel depth r = record { reads = refl; mirror = λ i n e. cc; cache = tt; root = tt }
