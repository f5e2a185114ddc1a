-- ===== src/Vfs/Lookup.antt =====
-- `find_node`: what it finds is what the volume holds at the path.
use linux2win.Base.{
  ℕ, ◌≡◌, refl, sym, ap, ◌∙◌, subst, inl, inr, Bool, true, false, Option, none, some, List, [], ◌∷◌,
  Bytes, Result, ok, or_else, ◌>>=◌, >>=-eq-ok, option_step, ok-inj, Bool-cases, get_elem?,
  if◌then◌else◌,
}
use linux2win.Ext4.Reader.{Ext4Reader}
use linux2win.Ext4.File.{FileStat}
use linux2win.Ext4.Directory.{DirEntryInfo}
use linux2win.Vfs.Names.{same_name}
use linux2win.Vfs.{VfsNode, VfsTree, node_at, find_child, ensure_children_loaded, descend}
use linux2win.Vfs.Store.{Grows, Grows-refl, Grows-trans}
use linux2win.Vfs.Mirror.{Child, Shows, AllShow, choose, resolve, listing, IsTree}
use linux2win.Vfs.Loading.{node_at-some}
use linux2win.Vfs.Load.{ensure_children_loaded-IsLoaded}

-- The node that is found, and the child of the volume that it shows.
abbrev pub Found : List VfsNode → Option ℕ → Option Child → Type 0
Found nodes none none = Unit {0}
Found nodes none (some k) = ⊥
Found nodes (some id) none = ⊥
Found nodes (some id) (some k) = Shows nodes id k

pub find_child-step :
    (t : VfsTree) (part : Bytes) (id : ℕ) (ids : List ℕ) (node : VfsNode) (o : Option ℕ)
    → get_elem? t.nodes id ≡ some node
    → find_child t part (id ∷ ids) ≡ ok o
    → (if same_name node.name part then ok (some id) else find_child t part ids) ≡ ok o
unfolding find_child
find_child-step t part id ids node o here e =
    subst
      (λ m.
        (m >>= λ child. if same_name child.name part then ok (some id) else find_child t part ids)
        ≡ ok o)
      (node_at-some t id node here) e

pub find_child-Found :
    (t : VfsTree) (part : Bytes) (ids : List ℕ) (kids : List Child) (o : Option ℕ)
    → AllShow t.nodes ids kids
    → find_child t part ids ≡ ok o
    → Found t.nodes o (choose part kids)
unfolding find_child choose
find_child-Found t part [] [] o all e = subst (λ x. Found t.nodes x none) (ok-inj e) tt
find_child-Found t part [] (k ∷ ks) o all e = absurd all
find_child-Found t part (i ∷ is) [] o all e = absurd all
find_child-Found t part (i ∷ is) ((entry, st) ∷ ks) o ((node, here, name, inode, directory), all)
      e =
    let e' = find_child-step t part i is node o here e in
    elim (Bool-cases (same_name entry.name part)) [
      | inl hit ↦
          let chosen : (if same_name node.name part then ok (some i) else find_child t part is)
              ≡ ok (some i) =
            rw (name, hit) refl in
          rw hit (
            subst (λ x. Found t.nodes x (some (entry, st))) (ok-inj (sym chosen ∙ e'))
              (node, here, name, inode, directory))
      | inr miss ↦
          let passed : (if same_name node.name part then ok (some i) else find_child t part is)
              ≡ find_child t part is =
            rw (name, miss) refl in
          rw miss (find_child-Found t part is ks o all (sym passed ∙ e'))
    ]

none-Found : (nodes : List VfsNode) (o : Option Child) → Found nodes none o → o ≡ none
none-Found nodes none h = refl
none-Found nodes (some k) h = absurd h

pub some-Found :
    (nodes : List VfsNode) (id : ℕ) (o : Option Child)
    → Found nodes (some id) o
    → (entry : DirEntryInfo) × (st : FileStat) × (o ≡ some (entry, st)) × Shows nodes id (entry, st)
some-Found nodes id none h = absurd h
some-Found nodes id (some (entry, st)) h = (entry, st, refl, h)

module _ (fuel depth : ℕ) (r : Ext4Reader) where
  -- The node that a lookup gives has the inode that the volume gives; no node is given only where the
  -- volume has nothing.
  abbrev pub Answers : List VfsNode → Option ℕ → Result (Option ℕ) → Type 0
  Answers nodes none volume = volume ≡ ok none
  Answers nodes (some id) volume =
      (node : VfsNode) × (get_elem? nodes id ≡ some node) × (volume ≡ ok (some node.inode_num))

  resolve-stops :
      (number : ℕ) (is_directory : Bool) (part : Bytes) (parts : List Bytes)
      → is_directory ≡ false
      → resolve fuel depth r number is_directory (part ∷ parts) ≡ ok none
  unfolding resolve
  resolve-stops number is_directory part parts e = rw e refl

  resolve-step :
      (number : ℕ) (is_directory : Bool) (part : Bytes) (parts : List Bytes) (kids : List Child)
      → is_directory ≡ true
      → or_else (listing fuel depth r number) [] ≡ ok kids
      → resolve fuel depth r number is_directory (part ∷ parts) ≡ (elim (choose part kids) [
        | none ↦ ok none
        | some (entry, st) ↦ resolve fuel depth r entry.inode st.is_directory parts
      ])
  unfolding resolve
  resolve-step number is_directory part parts kids e listed = rw e (rw listed refl)

  resolve-misses :
      (number : ℕ) (is_directory : Bool) (part : Bytes) (parts : List Bytes) (kids : List Child)
      → is_directory ≡ true
      → or_else (listing fuel depth r number) [] ≡ ok kids
      → choose part kids ≡ none
      → resolve fuel depth r number is_directory (part ∷ parts) ≡ ok none
  resolve-misses number is_directory part parts kids e listed missing =
      resolve-step number is_directory part parts kids e listed
      ∙ ap
          (λ (o : Option Child). elim o [
            | none ↦ ok none
            | some (entry, st) ↦ resolve fuel depth r entry.inode st.is_directory parts
          ])
          missing

  resolve-goes :
      (number : ℕ) (is_directory : Bool) (part : Bytes) (parts : List Bytes) (kids : List Child)
      (entry : DirEntryInfo) (st : FileStat)
      → is_directory ≡ true
      → or_else (listing fuel depth r number) [] ≡ ok kids
      → choose part kids ≡ some (entry, st)
      → resolve fuel depth r number is_directory (part ∷ parts)
        ≡ resolve fuel depth r entry.inode st.is_directory parts
  resolve-goes number is_directory part parts kids entry st e listed found =
      resolve-step number is_directory part parts kids e listed
      ∙ ap
          (λ (o : Option Child). elim o [
            | none ↦ ok none
            | some (entry, st) ↦ resolve fuel depth r entry.inode st.is_directory parts
          ])
          found

  descend-leaf :
      (t : VfsTree) (id : ℕ) (p : VfsNode) (part : Bytes) (parts : List Bytes)
      → get_elem? t.nodes id ≡ some p
      → p.is_directory ≡ false
      → descend fuel depth t id (part ∷ parts) ≡ ok (t, none)
  unfolding descend
  descend-leaf t id p part parts here leaf = rw (node_at-some t id p here) (rw leaf refl)

  -- What follows in `descend` once a directory is loaded.
  abbrev pub go_on : VfsTree → Bytes → List Bytes → VfsNode → Result (VfsTree × Option ℕ)
  go_on m part parts parent =
      find_child m part parent.children
      >>= elim [ none ↦ ok (m, none) | some child ↦ descend fuel depth m child parts ]

  descend-inner :
      (t s : VfsTree) (id : ℕ) (p : VfsNode) (part : Bytes) (parts : List Bytes) (o : Option ℕ)
      → get_elem? t.nodes id ≡ some p
      → p.is_directory ≡ true
      → descend fuel depth t id (part ∷ parts) ≡ ok (s, o)
      → (pair : VfsTree × Bool) × (ensure_children_loaded fuel depth t id ≡ ok pair)
        × ((q : VfsNode)
            → get_elem? pair.0.nodes id ≡ some q
            → go_on pair.0 part parts q ≡ ok (s, o))
  unfolding descend
  descend-inner t s id p part parts o here directory e =
      let after : VfsTree × Bool → Result (VfsTree × Option ℕ) =
        λ loaded. node_at loaded.0 id >>= go_on loaded.0 part parts in
      let entered : descend fuel depth t id (part ∷ parts)
          ≡ (ensure_children_loaded fuel depth t id >>= after) =
        rw (node_at-some t id p here) (rw directory refl) in
      let (pair, loaded, e') =
        >>=-eq-ok {A = VfsTree × Bool} (ensure_children_loaded fuel depth t id) after
          (sym entered ∙ e) in
      (
        pair,
        loaded,
        λ q there.
            subst (λ m. (m >>= go_on pair.0 part parts) ≡ ok (s, o))
              (node_at-some pair.0 id q there) e',
      )

  -- What `descend` leaves.
  pub record IsAnswer (t s : VfsTree) (o : Option ℕ) (volume : Result (Option ℕ)) : Type 0 where
    pub tree : IsTree fuel depth r s
    pub grows : Grows t.nodes s.nodes
    pub answers : Answers s.nodes o volume

  stay :
      (t s : VfsTree) (o a : Option ℕ) (volume : Result (Option ℕ))
      → IsTree fuel depth r t
      → Answers t.nodes a volume
      → ◌≡◌ {A = Result (VfsTree × Option ℕ)} (ok (t, a)) (ok (s, o))
      → IsAnswer t s o volume
  stay t s o a volume tree answers e =
      subst (λ (x : VfsTree × Option ℕ). IsAnswer t x.0 x.1 volume) (ok-inj e)
        (record { tree = tree; grows = Grows-refl t.nodes; answers = answers })

  after :
      (t m s : VfsTree) (o : Option ℕ) (near far : Result (Option ℕ))
      → Grows t.nodes m.nodes
      → near ≡ far
      → IsAnswer m s o far
      → IsAnswer t s o near
  after t m s o near far grows e a = record {
    tree = a.tree;
    grows = Grows-trans t.nodes m.nodes s.nodes grows a.grows;
    answers = subst (Answers s.nodes o) (sym e) a.answers;
  }

  pub descend-IsAnswer :
      (parts : List Bytes) (t s : VfsTree) (id : ℕ) (p : VfsNode) (o : Option ℕ)
      → IsTree fuel depth r t
      → get_elem? t.nodes id ≡ some p
      → descend fuel depth t id parts ≡ ok (s, o)
      → IsAnswer t s o (resolve fuel depth r p.inode_num p.is_directory parts)
  unfolding descend resolve
  descend-IsAnswer [] t s id p o tree here e =
      stay t s o (some id) (ok (some p.inode_num)) tree (p, here, refl) e
  descend-IsAnswer (part ∷ parts) t s id p o tree here e = elim (Bool-cases p.is_directory) [
    | inr leaf ↦
        stay t s o none (resolve fuel depth r p.inode_num p.is_directory (part ∷ parts)) tree
          (resolve-stops p.inode_num p.is_directory part parts leaf)
          (sym (descend-leaf t id p part parts here leaf) ∙ e)
    | inl directory ↦
        let (pair, loading, next) = descend-inner t s id p part parts o here directory e in
        let m = pair.0 in
        let l =
          ensure_children_loaded-IsLoaded fuel depth r t m id p pair.1 tree here directory
            loading in
        let went = resolve-goes p.inode_num p.is_directory part parts l.kids in
        elim (option_step (find_child m part l.node.children) (ok (m, none))
          (λ child. descend fuel depth m child parts) (next l.node l.here)) [
            | inl (missing, e') ↦
                let nothing =
                  none-Found m.nodes (choose part l.kids)
                    (find_child-Found m part l.node.children l.kids none l.shown missing) in
                after t m s o (resolve fuel depth r p.inode_num p.is_directory (part ∷ parts))
                  (ok none) l.grows
                  (resolve-misses p.inode_num p.is_directory part parts l.kids directory l.listed
                    nothing)
                  (stay m s o none (ok none) l.tree refl e')
            | inr (child, found, e') ↦
                let (entry, st, chosen, shows) =
                  some-Found m.nodes child (choose part l.kids)
                    (find_child-Found m part l.node.children l.kids (some child) l.shown found) in
                let (node, there, name, inode, kind) = shows in
                after t m s o (resolve fuel depth r p.inode_num p.is_directory (part ∷ parts))
                  (resolve fuel depth r node.inode_num node.is_directory parts) l.grows
                  (went entry st directory l.listed chosen ∙ cc (inode, kind))
                  (descend-IsAnswer parts m s child node o l.tree there e')
          ]
  ]
