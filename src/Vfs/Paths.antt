-- ===== src/Vfs/Paths.antt =====
-- A normalized path has the parts of the path, with one backslash between two of them.
use mathlib.Core.List.{append_assoc, append-nil}
use mathlib.Core.Path.{subst₂}
use linux2win.Base.{
  ℕ, ◌≡◌, refl, sym, ap, ◌∙◌, inl, inr, true, false, List, [], ◌∷◌, ◌++◌, arith, Bytes, All,
  All-append, Bool-cases, ◌==◌, not,
}
use linux2win.Ext4.Path.{is_separator, push_part, split_loop, split_path}
use linux2win.Ext4.Path.Parts.{IsPlain, IsPart}
use linux2win.Vfs.Names.{
  backslash, ends_open, norm_step, norm_loop, strip_front, keep_front, strip_back, normalize_path,
}

-- Each part with a backslash behind it; and one between two parts only.
abbrev closed : List Bytes → Bytes
closed [] = []
closed (part ∷ parts) = part ++ (backslash ∷ closed parts)

abbrev pub joined : List Bytes → Bytes
joined [] = []
joined (part ∷ []) = part
joined (part ∷ next ∷ parts) = part ++ (backslash ∷ joined (next ∷ parts))

closed-append : (xs ys : List Bytes) → closed (xs ++ ys) ≡ closed xs ++ closed ys
closed-append [] ys = refl
closed-append (x ∷ xs) ys =
    ap (λ s. x ++ (backslash ∷ s)) (closed-append xs ys)
    ∙ sym (append_assoc x (backslash ∷ closed xs) (closed ys))

pub not_backslash : (c : ℕ) → IsPlain c → (c == backslash) ≡ false
not_backslash c h = ground arith

-- The end of a text that ends in `xs ++ (c ∷ [])`.
ends_open-snoc : (xs : Bytes) (c : ℕ) → ends_open (xs ++ (c ∷ [])) ≡ not (c == backslash)
unfolding ends_open
ends_open-snoc [] c = refl
ends_open-snoc (x ∷ []) c = refl
ends_open-snoc (x ∷ y ∷ ys) c = ends_open-snoc (y ∷ ys) c

ends_open-append :
    (xs : Bytes) (c : ℕ) (cs : Bytes) → ends_open (xs ++ (c ∷ cs)) ≡ ends_open (c ∷ cs)
unfolding ends_open
ends_open-append [] c cs = refl
ends_open-append (x ∷ []) c cs = refl
ends_open-append (x ∷ y ∷ ys) c cs = ends_open-append (y ∷ ys) c cs

ends_open-plain : (c : ℕ) (cs : Bytes) → All IsPlain (c ∷ cs) → ends_open (c ∷ cs) ≡ true
unfolding ends_open
ends_open-plain c [] (h, _) = rw (not_backslash c h) refl
ends_open-plain c (d ∷ ds) (_, h) = ends_open-plain d ds h

ends_open-shut : (parts : List Bytes) → ends_open (backslash ∷ closed parts) ≡ false
ends_open-shut [] = ends_open-snoc [] backslash
ends_open-shut (p ∷ ps) = ends_open-append (backslash ∷ p) backslash (closed ps) ∙ ends_open-shut ps

ends_open-closed : (parts : List Bytes) → ends_open (closed parts) ≡ false
ends_open-closed [] = unfold ends_open in refl
ends_open-closed (p ∷ ps) = ends_open-append p backslash (closed ps) ∙ ends_open-shut ps

-- A separator behind a closed part, behind an open one, and a character of a part.
step-closed :
    (parts : List Bytes) (c : ℕ)
    → is_separator c ≡ true
    → norm_step (closed parts ++ []) c ≡ closed parts ++ []
step-closed parts c cut = rw (cut, append-nil (closed parts), ends_open-closed parts) refl

step-open :
    (parts : List Bytes) (c d : ℕ) (ds : Bytes)
    → is_separator c ≡ true
    → All IsPlain (d ∷ ds)
    → norm_step (closed parts ++ (d ∷ ds)) c ≡ closed (parts ++ ((d ∷ ds) ∷ [])) ++ []
step-open parts c d ds cut plain =
    rw (cut, ends_open-append (closed parts) d ds, ends_open-plain d ds plain)
      (append_assoc (closed parts) (d ∷ ds) (backslash ∷ [])
        ∙ sym (closed-append parts ((d ∷ ds) ∷ []))
        ∙ sym (append-nil (closed (parts ++ ((d ∷ ds) ∷ [])))))

step-plain :
    (parts : List Bytes) (c : ℕ) (current : Bytes)
    → IsPlain c
    → norm_step (closed parts ++ current) c ≡ closed parts ++ (current ++ (c ∷ []))
step-plain parts c current plain = rw plain (append_assoc (closed parts) current (c ∷ []))

split-separator :
    (c : ℕ) (current cs : Bytes)
    → is_separator c ≡ true
    → split_loop current (c ∷ cs) ≡ push_part current (split_loop [] cs)
unfolding split_loop
split-separator c current cs cut = rw cut refl

split-plain :
    (c : ℕ) (current cs : Bytes)
    → IsPlain c
    → split_loop current (c ∷ cs) ≡ split_loop (current ++ (c ∷ [])) cs
unfolding split_loop
split-plain c current cs plain = rw plain refl

-- What the loop over the characters leaves: closed parts and an open one, which are those of the path.
abbrev Shape : List Bytes → Bytes → Type 0
Shape parts norm =
    (done : List Bytes) × (last : Bytes) × All IsPart done
    × All IsPlain last
    × (norm ≡ closed done ++ last)
    × (parts ≡ done ++ push_part last [])

Shape-letter :
    (c : ℕ) (cs current : Bytes) (parts : List Bytes)
    → IsPlain c
    → Shape
        (parts ++ split_loop (current ++ (c ∷ [])) cs)
        (norm_loop (closed parts ++ (current ++ (c ∷ []))) cs)
    → Shape
        (parts ++ split_loop current (c ∷ cs))
        (norm_loop (norm_step (closed parts ++ current) c) cs)
Shape-letter c cs current parts letter =
    subst₂ Shape (ap (λ s. parts ++ s) (sym (split-plain c current cs letter)))
      (ap (λ n. norm_loop n cs) (sym (step-plain parts c current letter)))

norm_loop-Shape :
    (path current : Bytes) (parts : List Bytes)
    → All IsPlain current
    → All IsPart parts
    → Shape (parts ++ split_loop current path) (norm_loop (closed parts ++ current) path)
unfolding norm_loop
norm_loop-Shape [] current parts plain all =
    (parts, current, all, plain, refl, unfold split_loop in refl)
norm_loop-Shape (c ∷ cs) [] parts plain all = elim (Bool-cases (is_separator c)) [
  | inr letter ↦
      Shape-letter c cs [] parts letter (norm_loop-Shape cs (c ∷ []) parts (letter, tt) all)
  | inl cut ↦
      subst₂ Shape (ap (λ s. parts ++ s) (sym (split-separator c [] cs cut)))
        (ap (λ n. norm_loop n cs) (sym (step-closed parts c cut)))
        (norm_loop-Shape cs [] parts tt all)
]
norm_loop-Shape (c ∷ cs) (d ∷ ds) parts plain all = elim (Bool-cases (is_separator c)) [
  | inr letter ↦ Shape-letter c cs (d ∷ ds) parts letter (
      norm_loop-Shape cs (d ∷ (ds ++ (c ∷ []))) parts
        (All-append IsPlain (d ∷ ds) (c ∷ []) plain (letter, tt)) all)
  | inl cut ↦
      subst₂ Shape
        (append_assoc parts ((d ∷ ds) ∷ []) (split_loop [] cs)
          ∙ ap (λ s. parts ++ s) (sym (split-separator c (d ∷ ds) cs cut)))
        (ap (λ n. norm_loop n cs) (sym (step-open parts c d ds cut plain)))
        (norm_loop-Shape cs [] (parts ++ ((d ∷ ds) ∷ [])) tt
          (All-append IsPart parts ((d ∷ ds) ∷ []) all (((λ e. cc), plain), tt)))
]

-- Cutting the backslashes off at the ends.
strip_front-plain : (c : ℕ) (cs : Bytes) → IsPlain c → strip_front (c ∷ cs) ≡ c ∷ cs
unfolding strip_front
strip_front-plain c cs h = rw (not_backslash c h) refl

strip_front-Shape :
    (done : List Bytes) (last : Bytes)
    → All IsPart done
    → All IsPlain last
    → strip_front (closed done ++ last) ≡ closed done ++ last
strip_front-Shape [] [] all plain = unfold strip_front in refl
strip_front-Shape [] (c ∷ cs) all (h, plain) = strip_front-plain c cs h
strip_front-Shape ([] ∷ done) last ((nonempty, _), all) plain = absurd (nonempty refl)
strip_front-Shape ((c ∷ cs) ∷ done) last ((_, (h, _)), all) plain = strip_front-plain c _ h

-- A text that ends open is left as it is, whatever stands in front.
strip_back-open : (s : Bytes) → ends_open s ≡ true → strip_back s ≡ s
unfolding strip_back ends_open
strip_back-open [] h = refl
strip_back-open (c ∷ []) h = ground arith
strip_back-open (c ∷ d ∷ ds) h = ap (keep_front c) (strip_back-open (d ∷ ds) h)

strip_back-snoc : (s : Bytes) → ends_open s ≡ true → strip_back (s ++ (backslash ∷ [])) ≡ s
unfolding strip_back ends_open
strip_back-snoc [] h = ground arith
strip_back-snoc (c ∷ []) h = ground arith
strip_back-snoc (c ∷ d ∷ ds) h = ap (keep_front c) (strip_back-snoc (d ∷ ds) h)

-- Closed parts, with the last backslash taken off.
closed-joined :
    (p : Bytes) (ps : List Bytes) → closed (p ∷ ps) ≡ joined (p ∷ ps) ++ (backslash ∷ [])
closed-joined p [] = refl
closed-joined p (q ∷ ps) =
    ap (λ s. p ++ (backslash ∷ s)) (closed-joined q ps)
    ∙ sym (append_assoc p (backslash ∷ joined (q ∷ ps)) (backslash ∷ []))

ends_open-behind : (s t : Bytes) → ends_open t ≡ true → ends_open (s ++ t) ≡ true
ends_open-behind s [] h = absurd (unfold ends_open in cc)
ends_open-behind s (c ∷ cs) h = ends_open-append s c cs ∙ h

ends_open-part : (p : Bytes) → IsPart p → ends_open p ≡ true
ends_open-part [] (nonempty, _) = absurd (nonempty refl)
ends_open-part (c ∷ cs) (_, plain) = ends_open-plain c cs plain

ends_open-joined :
    (p : Bytes) (ps : List Bytes) → All IsPart (p ∷ ps) → ends_open (joined (p ∷ ps)) ≡ true
ends_open-joined p [] (h, _) = ends_open-part p h
ends_open-joined p (q ∷ ps) (_, all) =
    ap ends_open (sym (append_assoc p (backslash ∷ []) (joined (q ∷ ps))))
    ∙ ends_open-behind (p ++ (backslash ∷ [])) (joined (q ∷ ps)) (ends_open-joined q ps all)

joined-snoc : (done : List Bytes) (p : Bytes) → closed done ++ p ≡ joined (done ++ (p ∷ []))
joined-snoc [] p = refl
joined-snoc (d ∷ []) p = append_assoc d (backslash ∷ []) p
joined-snoc (d ∷ e ∷ done) p =
    append_assoc d (backslash ∷ closed (e ∷ done)) p
    ∙ ap (λ s. d ++ (backslash ∷ s)) (joined-snoc (e ∷ done) p)

strip_back-Shape :
    (done : List Bytes) (last : Bytes)
    → All IsPart done
    → All IsPlain last
    → strip_back (closed done ++ last) ≡ joined (done ++ push_part last [])
strip_back-Shape [] [] all plain = unfold strip_back in refl
strip_back-Shape (p ∷ ps) [] all plain =
    ap strip_back (append-nil (closed (p ∷ ps)) ∙ closed-joined p ps)
    ∙ strip_back-snoc (joined (p ∷ ps)) (ends_open-joined p ps all)
    ∙ ap joined (sym (append-nil (p ∷ ps)))
strip_back-Shape done (c ∷ cs) all plain =
    strip_back-open (closed done ++ (c ∷ cs))
      (ends_open-behind (closed done) (c ∷ cs) (ends_open-plain c cs plain))
    ∙ joined-snoc done (c ∷ cs)

pub normalize_path-joined : (path : Bytes) → normalize_path path ≡ joined (split_path path)
unfolding normalize_path split_path
normalize_path-joined path =
    let (done, last, all, plain, norm, parts) = norm_loop-Shape path [] [] tt tt in
    ap (λ n. strip_back (strip_front n)) norm
    ∙ ap strip_back (strip_front-Shape done last all plain)
    ∙ strip_back-Shape done last all plain
    ∙ ap joined (sym parts)
