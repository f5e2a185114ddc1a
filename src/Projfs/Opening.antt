-- ===== src/Projfs/Opening.antt =====
-- What a start of an enumeration that answers S_OK has done.
use linux2win.Base.{
  ℕ, ◌≡◌, ◌≢◌, refl, sym, ap, ◌∙◌, subst, inl, inr, Bool, true, false, not, Option, none, some,
  List, [], arith, Result, ok, or_else, ◌>>=◌, >>=-eq-ok, ok-inj, Bool-cases, Option-cases, fault,
  get_elem?, if◌then◌else◌,
}
use linux2win.Guid.{Guid}
use linux2win.Ext4.Reader.{Ext4Reader}
use linux2win.Vfs.{VfsNode, VfsTree, node_at, find_node, ensure_children_loaded, narrow}
use linux2win.Vfs.Mirror.{Child, AllShow, IsTree, listing}
use linux2win.Vfs.Loading.{node_at-some}
use linux2win.Vfs.Load.{ensure_children_loaded-IsLoaded}
use linux2win.Vfs.Find.{find_node-IsTree, find_node-any}
use linux2win.Projfs.{
  s_ok, error_invalid_parameter, error_file_not_found, CallbackData, DirEnumSession, Projection,
  rel_path, open_session, start_dir_enum, find_session, put_session,
}
use linux2win.Projfs.Delivery.{find-put}

node_at-eq :
    (t : VfsTree) (id : ℕ) (node : VfsNode)
    → node_at t id ≡ ok node
    → get_elem? t.nodes id ≡ some node
unfolding node_at
node_at-eq t id node e = elim (Option-cases (get_elem? t.nodes id)) [
  | inl dangling ↦ absurd (fault-ne-ok (sym (rw (dangling, node_at) refl) ∙ e))
  | inr (n, here) ↦ here ∙ ap some (ok-inj (sym (rw (here, node_at) refl) ∙ e))
]
  where
    fault-ne-ok : fault ≢ ok node
    fault-ne-ok e = cc

module _ (relock : Result (Unit {0})) (fuel depth : ℕ) (r : Ext4Reader) where
  -- What a start that answers S_OK has done: the directory that it found, and a session over its children.
  pub record IsStarted (t : VfsTree) (q : Projection) (path : List ℕ) (id : Guid) : Type 0 where
    pub found : VfsTree
    pub nid : ℕ
    pub node : VfsNode
    pub kids : List Child
    pub later : VfsTree
    pub ids : List ℕ
    pub finds : find_node relock fuel depth t (narrow path) ≡ ok (found, some nid)
    pub here : get_elem? found.nodes nid ≡ some node
    pub directory : node.is_directory ≡ true
    pub listed : or_else (listing fuel depth r node.inode_num) [] ≡ ok kids
    pub tree : IsTree fuel depth r later
    pub shown : AllShow later.nodes ids kids
    pub holds : q.tree ≡ some later
    pub session :
        find_session id q.sessions
        ≡ some (record { search_expression = []; matching_entries = ids; current_index = 0 })

  refused :
      (p q : Projection) (code : ℕ)
      → code ≢ s_ok
      → ◌≡◌ {A = Result (Projection × ℕ)} (ok (p, code)) (ok (q, s_ok))
      → ⊥
  refused p q code bad e = bad (ap (λ (x : Projection × ℕ). x.1) (ok-inj e))

  abbrev fresh : List ℕ → DirEnumSession
  fresh ids = record { search_expression = []; matching_entries = ids; current_index = 0 }

  abbrev with_session : Projection → Guid → VfsTree × Bool → VfsNode → Result (Projection × ℕ)
  with_session p id loaded parent = ok (
    record { tree = some loaded.0; sessions = put_session id (fresh parent.children) p.sessions },
    s_ok,
  )

  open_session-IsStarted :
      (p q : Projection) (t m : VfsTree) (path : List ℕ) (id : Guid) (o : Option ℕ)
      → IsTree fuel depth r m
      → find_node relock fuel depth t (narrow path) ≡ ok (m, o)
      → open_session relock fuel depth p m id o ≡ ok (q, s_ok)
      → IsStarted t q path id
  unfolding put_session
  open_session-IsStarted p q t m path id none tree finds e =
      absurd (refused (record p { tree = some m }) q error_file_not_found (λ e'. ground arith) e)
  open_session-IsStarted p q t m path id (some nid) tree finds e =
      let onward : VfsNode → Result (Projection × ℕ) = λ node.
        if not node.is_directory
        then ok (record p { tree = some m }, error_file_not_found)
        else ensure_children_loaded fuel depth m nid >>= λ loaded.
            node_at loaded.0 nid >>= with_session p id loaded in
      let (node, there, e') = >>=-eq-ok (node_at m nid) onward e in
      let here = node_at-eq m nid node there in
      elim (Bool-cases node.is_directory) [
        | inr leaf ↦ absurd (
            refused (record p { tree = some m }) q error_file_not_found (λ e'. ground arith)
              (sym (rw leaf refl) ∙ e'))
        | inl directory ↦
            let (loaded, loading, e'') =
              >>=-eq-ok (ensure_children_loaded fuel depth m nid)
                (λ (loaded : VfsTree × Bool). node_at loaded.0 nid >>= with_session p id loaded)
                (sym (rw directory refl) ∙ e') in
            let l =
              ensure_children_loaded-IsLoaded fuel depth r m loaded.0 nid node loaded.1 tree here
                directory loading in
            let q' : Projection = record {
              tree = some loaded.0;
              sessions = put_session id (fresh l.node.children) p.sessions;
            } in
            let done : q' ≡ q =
              ap (λ (x : Projection × ℕ). x.0)
                (ok-inj (
                  sym (
                    ap (λ n. n >>= with_session p id loaded)
                      (node_at-some loaded.0 nid l.node l.here))
                  ∙ e'')) in
            subst (λ x. IsStarted t x path id) done
              (record {
                found = m;
                nid = nid;
                node = node;
                kids = l.kids;
                later = loaded.0;
                ids = l.node.children;
                finds = finds;
                here = here;
                directory = directory;
                listed = l.listed;
                tree = l.tree;
                shown = l.shown;
                holds = refl;
                session = find-put id (fresh l.node.children) p.sessions;
              })
      ]

  pub start_dir_enum-IsStarted :
      (t : VfsTree) (p q : Projection) (call : CallbackData) (id : Guid)
      → r.mounted ≡ true
      → IsTree fuel depth r t
      → t.held ≡ false
      → p.tree ≡ some t
      → start_dir_enum relock fuel depth p (some call) id ≡ ok (q, s_ok)
      → IsStarted t q (rel_path call) id
  unfolding start_dir_enum
  start_dir_enum-IsStarted t p q call id mounted tree free holds e =
      let looking : VfsTree × Option ℕ → Result (Projection × ℕ) =
        λ found. open_session relock fuel depth p found.0 id found.1 in
      let start : Bool → VfsTree → Result (Projection × ℕ) = λ b t.
        if not b
        then ok (p, error_invalid_parameter)
        else find_node relock fuel depth t (narrow (rel_path call)) >>= looking in
      let opened : start call.has_context t ≡ ok (q, s_ok) =
        sym (
          ap
            (λ (o : Option VfsTree). elim o [
              | none ↦ ok (p, error_invalid_parameter)
              | some t ↦ start call.has_context t
            ])
            holds)
        ∙ e in
      elim (Bool-cases call.has_context) [
        | inr bare ↦ absurd (
            refused p q error_invalid_parameter (λ e'. ground arith)
              (sym (ap (λ b. start b t) bare) ∙ opened))
        | inl context ↦
            let (found, finds, e') =
              >>=-eq-ok (find_node relock fuel depth t (narrow (rel_path call))) looking
                (sym (ap (λ b. start b t) context) ∙ opened) in
            open_session-IsStarted p q t found.0 (rel_path call) id found.1
              (find_node-IsTree fuel depth r t found.0 (narrow (rel_path call)) found.1 mounted tree
                free
                (find_node-any relock fuel depth t (narrow (rel_path call)) found free finds)).0
              finds e'
      ]
