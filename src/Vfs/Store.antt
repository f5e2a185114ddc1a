-- ===== src/Vfs/Store.antt =====
-- The store of nodes: it only grows, and a node keeps its name, path, inode and kind.
use native.Mathlib.Decide.{ℕ_discrete}
use linux2win.Base.{
  subst, ℕ, zero, suc, ◌<◌, ◌≡◌, ◌≢◌, refl, sym, ap, ◌∙◌, ◌⊎◌, inl, inr, some, List, [], ◌∷◌, ◌++◌,
  arith, length, get_elem?, modify, get_elem?-append_left,
}
use linux2win.Vfs.{VfsNode}

module _ {ℓ} {A : Type ℓ} where
  pub get_elem?-modify_same :
      (f : A → A) (i : ℕ) (xs : List A) (x : A)
      → get_elem? xs i ≡ some x
      → get_elem? (modify f i xs) i ≡ some (f x)
  get_elem?-modify_same f i [] x e = cc
  get_elem?-modify_same f zero (y ∷ ys) x e = cc
  get_elem?-modify_same f (suc i) (y ∷ ys) x e = get_elem?-modify_same f i ys x e

  pub get_elem?-modify_other :
      (f : A → A) (i j : ℕ) (xs : List A) → j ≢ i → get_elem? (modify f i xs) j ≡ get_elem? xs j
  get_elem?-modify_other f i j [] apart = refl
  get_elem?-modify_other f zero zero (y ∷ ys) apart = absurd (apart refl)
  get_elem?-modify_other f zero (suc j) (y ∷ ys) apart = refl
  get_elem?-modify_other f (suc i) zero (y ∷ ys) apart = refl
  get_elem?-modify_other f (suc i) (suc j) (y ∷ ys) apart =
      get_elem?-modify_other f i j ys (λ e. apart (ap suc e))

  pub length-modify : (f : A → A) (i : ℕ) (xs : List A) → length (modify f i xs) ≡ length xs
  length-modify f i [] = refl
  length-modify f zero (x ∷ xs) = refl
  length-modify f (suc i) (x ∷ xs) = ap suc (length-modify f i xs)

  get_elem?-bound : (xs : List A) (i : ℕ) (x : A) → get_elem? xs i ≡ some x → i < length xs
  get_elem?-bound [] i x e = absurd (ground arith)
  get_elem?-bound (y ∷ ys) zero x e = omega arith
  get_elem?-bound (y ∷ ys) (suc i) x e = omega (arith, get_elem?-bound ys i x e)

  pub get_elem?-left :
      (xs ys : List A) (i : ℕ) (x : A) → get_elem? xs i ≡ some x → get_elem? (xs ++ ys) i ≡ some x
  get_elem?-left xs ys i x e = get_elem?-append_left xs ys i (get_elem?-bound xs i x e) ∙ e

  pub get_elem?-last : (xs : List A) (x : A) → get_elem? (xs ++ (x ∷ [])) (length xs) ≡ some x
  get_elem?-last [] x = refl
  get_elem?-last (y ∷ ys) x = get_elem?-last ys x

  -- What stands at a place of `xs ++ (x ∷ [])`.
  pub snoc-cases :
      (xs : List A) (x : A) (i : ℕ) (y : A)
      → get_elem? (xs ++ (x ∷ [])) i ≡ some y
      → (get_elem? xs i ≡ some y) ⊎ (x ≡ y)
  snoc-cases [] x zero y e = inr cc
  snoc-cases [] x (suc i) y e = inl e
  snoc-cases (z ∷ zs) x zero y e = inl e
  snoc-cases (z ∷ zs) x (suc i) y e = snoc-cases zs x i y e

-- The two are one node at two times.
pub record Core (a b : VfsNode) : Type 0 where
  pub name : a.name ≡ b.name
  pub path : a.relative_path ≡ b.relative_path
  pub inode : a.inode_num ≡ b.inode_num
  pub directory : a.is_directory ≡ b.is_directory

Core-refl : (a : VfsNode) → Core a a
Core-refl a = record { name = refl; path = refl; inode = refl; directory = refl }

Core-trans : (a b c : VfsNode) → Core a b → Core b c → Core a c
Core-trans a b c p q = record {
  name = p.name ∙ q.name;
  path = p.path ∙ q.path;
  inode = p.inode ∙ q.inode;
  directory = p.directory ∙ q.directory;
}

abbrev pub Grows : List VfsNode → List VfsNode → Type 0
Grows xs ys =
    (i : ℕ) (a : VfsNode)
    → get_elem? xs i ≡ some a
    → (b : VfsNode) × (get_elem? ys i ≡ some b) × Core a b

pub Grows-refl : (xs : List VfsNode) → Grows xs xs
Grows-refl xs i a e = (a, e, Core-refl a)

pub Grows-trans : (xs ys zs : List VfsNode) → Grows xs ys → Grows ys zs → Grows xs zs
Grows-trans xs ys zs g h i a e =
    let (b, eb, p) = g i a e in let (c, ec, q) = h i b eb in (c, ec, Core-trans a b c p q)

pub Grows-append : (xs ys : List VfsNode) → Grows xs (xs ++ ys)
Grows-append xs ys i a e = (a, get_elem?-left xs ys i a e, Core-refl a)

pub Grows-modify :
    (f : VfsNode → VfsNode) (i : ℕ) (xs : List VfsNode)
    → ((a : VfsNode) → Core a (f a))
    → Grows xs (modify f i xs)
Grows-modify f i xs keeps j a e = elim (ℕ_discrete j i) [
  | yes here ↦ (
    f a,
    subst (λ k. get_elem? (modify f i xs) k ≡ some (f a)) (sym here)
        (get_elem?-modify_same f i xs a (subst (λ k. get_elem? xs k ≡ some a) here e)),
    keeps a,
  )
  | no apart ↦ (a, get_elem?-modify_other f i j xs apart ∙ e, Core-refl a)
]
