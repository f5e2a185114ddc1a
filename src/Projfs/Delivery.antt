-- ===== src/Projfs/Delivery.antt =====
-- The calls of one enumeration, one behind the other.
use linux2win.Base.{
  ℕ, zero, suc, ◌+◌, ◌<◌, ◌≤◌, ◌≡◌, refl, sym, ap, ◌∙◌, subst, ◌⊎◌, inl, inr, Bool, true, false,
  not, Option, none, some, List, [], ◌∷◌, ◌++◌, arith, Result, ok, ◌>>=◌, drop, length,
  length-append, All, same_refl, if◌then◌else◌,
}
use mathlib.Core.List.{append_assoc}
use linux2win.Guid.{Guid, guid_eq}
use linux2win.Projfs.{
  error_no_more_files, error_invalid_parameter, CallbackData, DirEnumSession, Projection, BasicInfo,
  set_restart, set_expression, fill_session, get_dir_enum, find_session, put_session,
}
use linux2win.Projfs.Scan.{
  Entry, IsDirBuffer, offers, IsRoomy, IsFilled, fill_loop-IsFilled, append-nil_right,
}

drop-nil {ℓ} : {A : Type ℓ} (n : ℕ) → drop {A = A} n [] ≡ []
drop-nil zero = refl
drop-nil (suc n) = refl

drop-drop {ℓ} : {A : Type ℓ} (k n : ℕ) (xs : List A) → drop k (drop n xs) ≡ drop (n + k) xs
drop-drop k zero xs = let e : k ≡ 0 + k = omega arith in ap (λ m. drop m xs) e
drop-drop k (suc n) [] = drop-nil k ∙ sym (drop-nil (suc n + k))
drop-drop k (suc n) (x ∷ xs) =
    let e : suc (n + k) ≡ suc n + k = omega arith in drop-drop k n xs ∙ ap (λ m. drop m (x ∷ xs)) e

guid_eq_refl : (g : Guid) → guid_eq g g ≡ true
unfolding guid_eq
guid_eq_refl g = ground (arith, same_refl g.data4)

pub find-put :
    (id : Guid) (s : DirEnumSession) (sessions : List (Guid × DirEnumSession))
    → find_session id (put_session id s sessions) ≡ some s
unfolding find_session put_session
find-put id s sessions = rw (guid_eq_refl id) refl

-- The second time a search expression is given it changes nothing.
kept_expression :
    (search : Option (List ℕ)) (s : DirEnumSession) (i : ℕ)
    → set_expression search
        (set_restart false (record (set_expression search s) { current_index = i }))
      ≡ record (set_expression search s) { current_index = i }
kept_expression none s i = refl
kept_expression (some []) s i = refl
kept_expression (some (c ∷ cs)) s i = refl

same_place :
    (search : Option (List ℕ)) (s : DirEnumSession)
    → ((set_expression search s).current_index ≡ s.current_index)
      × ((set_expression search s).matching_entries ≡ s.matching_entries)
same_place none s = (refl, refl)
same_place (some []) s = (refl, refl)
same_place (some (c ∷ cs)) s = (refl, refl)

module _ {Buffer : Type 0} (name_match : Option (List ℕ → List ℕ → Bool))
    (fill : List ℕ → BasicInfo → Buffer → ℕ × Buffer) where
  -- A call for each of some buffers: the answers, with what the buffers then hold.
  unfoldable pub scan :
      Projection
      → CallbackData
      → Guid
      → Option (List ℕ)
      → List Buffer
      → Result (Projection × List (ℕ × Buffer))
  unfolding get_dir_enum
  scan p call id search [] = ok (p, [])
  scan p call id search (b ∷ bs) =
      get_dir_enum name_match fill p (some call) id search b >>= λ first.
      scan first.0 call id search bs >>= λ others. ok (others.0, (first.1, first.2) ∷ others.1)

  module _ (contents : Buffer → List Entry) (buffers : IsDirBuffer fill contents) where
    abbrev pub delivered : List (ℕ × Buffer) → List Entry
    delivered [] = []
    delivered ((hr, b) ∷ rest) = contents b ++ delivered rest

    abbrev pub HasEnded : List (ℕ × Buffer) → Type 0
    HasEnded [] = ⊥
    HasEnded ((hr, b) ∷ rest) = (hr ≡ error_no_more_files) ⊎ HasEnded rest

    -- What the calls leave.
    pub record IsScanned (p : Projection) (call : CallbackData) (id : Guid)
        (search : Option (List ℕ)) (bs : List Buffer) (all : List Entry) : Type 0 where
      pub after : Projection
      pub results : List (ℕ × Buffer)
      pub rest : List Entry
      pub ran : scan p call id search bs ≡ ok (after, results)
      pub whole : all ≡ delivered results ++ rest
      pub ends : HasEnded results → rest ≡ []
      pub enough :
          All (IsRoomy name_match fill contents buffers) bs → length all ≤ length bs → rest ≡ []

    -- One call: the session goes on where the loop stops.
    get_dir_enum-fills :
        (p : Projection) (call : CallbackData) (id : Guid) (search : Option (List ℕ))
        (s : DirEnumSession) (b : Buffer) (all : List Entry)
        → call.has_context ≡ true
        → find_session id p.sessions ≡ some s
        → let s' = set_expression search (set_restart call.restart s) in
          (f : IsFilled name_match fill contents buffers p.tree s'.search_expression
            (drop s'.current_index s'.matching_entries)
            s'.current_index
            false
            b
            all)
          → get_dir_enum name_match fill p (some call) id search b
            ≡ ok (
              record p {
                sessions =
                    put_session id
                      (record s' { current_index = s'.current_index + f.passed })
                      p.sessions;
              },
              f.answer,
              f.after,
            )
    unfolding get_dir_enum
    get_dir_enum-fills p call id search s b all context there f =
        let s' = set_expression search (set_restart call.restart s) in
        let store : ℕ × ℕ × Buffer → Result (Projection × ℕ × Buffer) = λ filled. ok (
          record p {
            sessions = put_session id (record s' { current_index = filled.0 }) p.sessions;
          },
          filled.1,
          filled.2,
        ) in
        ap
          (λ (b' : Bool).
            if not b'
            then ok (p, error_invalid_parameter, b)
            else elim (find_session id p.sessions) [
              | none ↦ ok (p, error_invalid_parameter, b)
              | some s ↦
                  fill_session name_match fill p id
                    (set_expression search (set_restart call.restart s)) b
            ])
          context
        ∙ ap
            (λ (o : Option DirEnumSession). elim o [
              | none ↦ ok (p, error_invalid_parameter, b)
              | some s ↦
                  fill_session name_match fill p id
                    (set_expression search (set_restart call.restart s)) b
            ])
            there
        ∙ ap (λ m. m >>= store) f.ran

    scan_step :
        (p : Projection) (call : CallbackData) (id : Guid) (search : Option (List ℕ)) (b : Buffer)
        (bs : List Buffer) (all given later : List Entry) (q : Projection) (answer : ℕ)
        (after : Buffer)
        → get_dir_enum name_match fill p (some call) id search b ≡ ok (q, answer, after)
        → all ≡ given ++ later
        → contents after ≡ given
        → (answer ≡ error_no_more_files → later ≡ [])
        → (IsRoomy name_match fill contents buffers b → given ≡ [] → later ≡ [])
        → IsScanned q call id search bs later
        → IsScanned p call id search (b ∷ bs) all
    unfolding scan
    scan_step p call id search b bs all given later q answer after e whole wrote ends moves next =
        record {
          after = next.after;
          results = (answer, after) ∷ next.results;
          rest = next.rest;
          ran =
              ap
                (λ m. m >>= λ first. scan first.0 call id search bs >>= λ others.
                  ok (others.0, (first.1, first.2) ∷ others.1))
                e
              ∙ ap (λ m. m >>= λ others. ok (others.0, (answer, after) ∷ others.1)) next.ran;
          whole =
              whole
              ∙ ap (λ xs. given ++ xs) next.whole
              ∙ sym (append_assoc given (delivered next.results) next.rest)
              ∙ ap (λ xs. (xs ++ delivered next.results) ++ next.rest) (sym wrote);
          ends = elim [
            | inl last ↦
                append-nil_right (delivered next.results) next.rest (sym next.whole ∙ ends last)
            | inr sooner ↦ next.ends sooner
          ];
          enough = λ (room, rooms) few. elim (empty_or given) [
            | inl nothing ↦
                append-nil_right (delivered next.results) next.rest
                  (sym next.whole ∙ moves room nothing)
            | inr some_given ↦
                next.enough rooms
                  (omega (arith, few, some_given, ap length whole, length-append given later))
          ];
        }
      where
        empty_or : (xs : List Entry) → (xs ≡ []) ⊎ (0 < length xs)
        empty_or [] = inl refl
        empty_or (x ∷ xs) = inr (omega arith)

    pub scan-IsScanned :
        (bs : List Buffer) (p : Projection) (call : CallbackData) (id : Guid)
        (search : Option (List ℕ)) (s : DirEnumSession) (all : List Entry)
        → call.has_context ≡ true
        → call.restart ≡ false
        → find_session id p.sessions ≡ some s
        → All (λ b. contents b ≡ []) bs
        → let s' = set_expression search s in
          offers name_match p.tree s'.search_expression (drop s'.current_index s'.matching_entries)
            ≡ ok all
          → IsScanned p call id search bs all
    unfolding scan
    scan-IsScanned [] p call id search s all context restart there empty offered = record {
      after = p;
      results = [];
      rest = all;
      ran = refl;
      whole = refl;
      ends = λ e. absurd e;
      enough = λ _ few. length-zero all few;
    }
      where
        length-zero : (xs : List Entry) → length xs ≤ 0 → xs ≡ []
        length-zero [] e = refl
        length-zero (x ∷ xs) e = absurd (omega arith)
    scan-IsScanned (b ∷ bs) p call id search s all context restart there (bare, empty) offered =
        let s' = set_expression search (set_restart call.restart s) in
        let same_session : set_expression search s ≡ s' =
          ap (λ (r : Bool). set_expression search (set_restart r s)) (sym restart) in
        let f =
          fill_loop-IsFilled name_match fill contents buffers
            (drop s'.current_index s'.matching_entries) p.tree s'.search_expression s'.current_index
            false b all
            (subst
              (λ (x : DirEnumSession).
                offers name_match p.tree x.search_expression
                  (drop x.current_index x.matching_entries)
                ≡ ok all)
              same_session offered) in
        let s'' : DirEnumSession = record s' { current_index = s'.current_index + f.passed } in
        let q : Projection = record p { sessions = put_session id s'' p.sessions } in
        let again : s'' ≡ set_expression search s'' =
          ap (λ (x : DirEnumSession). record x { current_index = s'.current_index + f.passed })
            (sym same_session)
          ∙ sym (kept_expression search s (s'.current_index + f.passed))
          ∙ ap
              (λ (x : DirEnumSession).
                set_expression search (record x { current_index = s'.current_index + f.passed }))
              same_session in
        let pending : offers name_match p.tree s'.search_expression
              (drop (s'.current_index + f.passed) s'.matching_entries)
            ≡ ok f.rest =
          ap (offers name_match p.tree s'.search_expression)
            (sym (drop-drop f.passed s'.current_index s'.matching_entries))
          ∙ f.pending in
        scan_step p call id search b bs all f.given f.rest q f.answer f.after
          (get_dir_enum-fills p call id search s b all context there f) f.whole
          (f.wrote ∙ ap (λ xs. xs ++ f.given) bare) f.ends f.moves
          (scan-IsScanned bs q call id search s'' f.rest context restart
            (find-put id s'' p.sessions) empty
            (subst
              (λ (x : DirEnumSession).
                offers name_match p.tree x.search_expression
                  (drop x.current_index x.matching_entries)
                ≡ ok f.rest)
              again pending))
