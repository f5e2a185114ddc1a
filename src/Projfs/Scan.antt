-- ===== src/Projfs/Scan.antt =====
-- What a directory enumeration delivers, over all of its calls and whatever the buffers hold.
use linux2win.Base.{
  ℕ, suc, ◌+◌, ◌≡◌, ◌≢◌, refl, sym, ap, ◌∙◌, inl, inr, Bool, true, false, Option, List, [], ◌∷◌,
  ◌++◌, arith, Result, ok, ◌>>=◌, >>=-eq-ok, ok-inj, Bool-cases, drop, ◌==◌, if◌then◌else◌,
}
use mathlib.Core.List.{append_assoc, append-nil}
use linux2win.Vfs.{VfsNode, VfsTree}
use linux2win.Projfs.{
  s_ok, failed_hr, error_no_more_files, error_insufficient_buffer, BasicInfo, basic_info, widen,
  entry_at, is_match, fill_loop,
}

abbrev pub Entry : Type 0
Entry = List ℕ × BasicInfo

-- `contents` is what a buffer holds. A call that succeeds puts the entry behind the others, one that
-- fails leaves them, and the end of a directory is not among the answers.
pub record IsDirBuffer {Buffer : Type 0} (fill : List ℕ → BasicInfo → Buffer → ℕ × Buffer)
    (contents : Buffer → List Entry) : Type 0 where
  pub takes :
      (name : List ℕ) (info : BasicInfo) (b : Buffer)
      → failed_hr (fill name info b).0 ≡ false
      → contents (fill name info b).1 ≡ contents b ++ ((name, info) ∷ [])
  pub keeps :
      (name : List ℕ) (info : BasicInfo) (b : Buffer)
      → failed_hr (fill name info b).0 ≡ true
      → contents (fill name info b).1 ≡ contents b
  pub never_ends :
      (name : List ℕ) (info : BasicInfo) (b : Buffer) → (fill name info b).0 ≢ error_no_more_files

-- The entries that pass the search expression, in order.
unfoldable pub offers :
    Option (List ℕ → List ℕ → Bool) → Option VfsTree → List ℕ → List ℕ → Result (List Entry)
offers name_match tree expression [] = ok []
offers name_match tree expression (id ∷ ids) = entry_at tree id >>= λ entry.
    offers name_match tree expression ids >>= λ rest. ok (
      if is_match name_match expression (widen entry.name)
      then (widen entry.name, basic_info entry) ∷ rest
      else rest)

true-ne-false : true ≢ false
true-ne-false e = cc

ends_not :
    (added : Bool) {hr : ℕ}
    → hr ≡ error_insufficient_buffer
    → (if added then s_ok else hr) ≢ error_no_more_files
ends_not true code e = ground arith
ends_not false code e = ground arith

pub append-nil_left {ℓ} : {A : Type ℓ} (xs ys : List A) → xs ++ ys ≡ [] → xs ≡ []
append-nil_left [] ys e = refl
append-nil_left (x ∷ xs) ys e = cc

pub append-nil_right {ℓ} : {A : Type ℓ} (xs ys : List A) → xs ++ ys ≡ [] → ys ≡ []
append-nil_right [] ys e = e
append-nil_right (x ∷ xs) ys e = cc

module _ {Buffer : Type 0} (name_match : Option (List ℕ → List ℕ → Bool))
    (fill : List ℕ → BasicInfo → Buffer → ℕ × Buffer) (contents : Buffer → List Entry)
    (buffers : IsDirBuffer fill contents) where
  abbrev pub IsRoomy : Buffer → Type 0
  IsRoomy b = (name : List ℕ) (info : BasicInfo) → failed_hr (fill name info b).0 ≡ false

  offers-step :
      (tree : Option VfsTree) (expression : List ℕ) (id : ℕ) (ids : List ℕ) (all : List Entry)
      → offers name_match tree expression (id ∷ ids) ≡ ok all
      → (entry : VfsNode) × (later : List Entry) × (entry_at tree id ≡ ok entry)
        × (offers name_match tree expression ids ≡ ok later)
        × ((if is_match name_match expression (widen entry.name)
              then (widen entry.name, basic_info entry) ∷ later
              else later)
            ≡ all)
  unfolding offers
  offers-step tree expression id ids all e =
      let (entry, there, e') =
        >>=-eq-ok (entry_at tree id)
          (λ entry. offers name_match tree expression ids >>= λ rest. ok (
            if is_match name_match expression (widen entry.name)
            then (widen entry.name, basic_info entry) ∷ rest
            else rest))
          e in
      let (later, offered, e'') =
        >>=-eq-ok (offers name_match tree expression ids)
          (λ rest. ok (
            if is_match name_match expression (widen entry.name)
            then (widen entry.name, basic_info entry) ∷ rest
            else rest))
          e' in
      (entry, later, there, offered, ok-inj e'')

  -- A round of the loop, whose entry is `entry`.
  abbrev round :
      Option VfsTree → List ℕ → List ℕ → ℕ → Bool → Buffer → VfsNode → Result (ℕ × ℕ × Buffer)
  round tree expression ids index added buffer entry =
      elim (is_match name_match expression (widen entry.name)) [
        | false ↦ fill_loop name_match fill tree expression ids (index + 1) added buffer
        | true ↦
            let (hr, after) = fill (widen entry.name) (basic_info entry) buffer in
            elim (hr == error_insufficient_buffer) [
              | true ↦ ok (index, (if added then s_ok else hr), after)
              | false ↦ elim (failed_hr hr) [
                | true ↦ ok (index, hr, after)
                | false ↦ fill_loop name_match fill tree expression ids (index + 1) true after
              ]
            ]
      ]

  fill_loop-round :
      (tree : Option VfsTree) (expression : List ℕ) (id : ℕ) (ids : List ℕ) (index : ℕ)
      (added : Bool) (buffer : Buffer) (entry : VfsNode)
      → entry_at tree id ≡ ok entry
      → fill_loop name_match fill tree expression (id ∷ ids) index added buffer
        ≡ round tree expression ids index added buffer entry
  unfolding fill_loop
  fill_loop-round tree expression id ids index added buffer entry e =
      ap (λ m. m >>= round tree expression ids index added buffer) e

  -- What the loop leaves of the entries that are to be delivered.
  pub record IsFilled (tree : Option VfsTree) (expression ids : List ℕ) (index : ℕ) (added : Bool)
      (buffer : Buffer) (all : List Entry) : Type 0 where
    pub passed : ℕ
    pub answer : ℕ
    pub after : Buffer
    pub given : List Entry
    pub rest : List Entry
    pub ran :
        fill_loop name_match fill tree expression ids index added buffer
        ≡ ok (index + passed, answer, after)
    pub pending : offers name_match tree expression (drop passed ids) ≡ ok rest
    pub whole : all ≡ given ++ rest
    pub wrote : contents after ≡ contents buffer ++ given
    pub ends : answer ≡ error_no_more_files → rest ≡ []
    pub moves : IsRoomy buffer → given ≡ [] → rest ≡ []

  -- A round that stops in front of an entry.
  stopped :
      (tree : Option VfsTree) (expression : List ℕ) (id : ℕ) (ids : List ℕ) (index : ℕ)
      (added : Bool) (buffer : Buffer) (all : List Entry) (answer : ℕ) (entry : VfsNode)
      → fill_loop name_match fill tree expression (id ∷ ids) index added buffer
        ≡ ok (index, answer, (fill (widen entry.name) (basic_info entry) buffer).1)
      → offers name_match tree expression (id ∷ ids) ≡ ok all
      → failed_hr (fill (widen entry.name) (basic_info entry) buffer).0 ≡ true
      → answer ≢ error_no_more_files
      → IsFilled tree expression (id ∷ ids) index added buffer all
  stopped tree expression id ids index added buffer all answer entry e offered fails continues =
      let none_passed : index ≡ index + 0 = omega arith in
      let after = (fill (widen entry.name) (basic_info entry) buffer).1 in
      record {
        passed = 0;
        answer = answer;
        after = after;
        given = [];
        rest = all;
        ran = e ∙ ap (λ i. ok (i, answer, after)) none_passed;
        pending = offered;
        whole = refl;
        wrote =
            buffers.keeps (widen entry.name) (basic_info entry) buffer fails
            ∙ sym (append-nil (contents buffer));
        ends = λ e'. absurd (continues e');
        moves = λ roomy _.
            absurd (true-ne-false (sym fails ∙ roomy (widen entry.name) (basic_info entry)));
      }

  -- A round that goes on, with the entry delivered or left out.
  went_on :
      (tree : Option VfsTree) (expression : List ℕ) (id : ℕ) (ids : List ℕ) (index : ℕ)
      (added later_added : Bool) (buffer later : Buffer) (all here rest : List Entry)
      → fill_loop name_match fill tree expression (id ∷ ids) index added buffer
        ≡ fill_loop name_match fill tree expression ids (index + 1) later_added later
      → all ≡ here ++ rest
      → contents later ≡ contents buffer ++ here
      → (here ≡ [] → IsRoomy buffer → IsRoomy later)
      → IsFilled tree expression ids (index + 1) later_added later rest
      → IsFilled tree expression (id ∷ ids) index added buffer all
  went_on tree expression id ids index added later_added buffer later all here rest e whole wrote
        roomy f =
      let one_more : index + 1 + f.passed ≡ index + suc f.passed = omega arith in
      record {
        passed = suc f.passed;
        answer = f.answer;
        after = f.after;
        given = here ++ f.given;
        rest = f.rest;
        ran = e ∙ f.ran ∙ ap (λ i. ok (i, f.answer, f.after)) one_more;
        pending = f.pending;
        whole = whole ∙ ap (λ xs. here ++ xs) f.whole ∙ sym (append_assoc here f.given f.rest);
        wrote =
            f.wrote ∙ ap (λ xs. xs ++ f.given) wrote ∙ append_assoc (contents buffer) here f.given;
        ends = f.ends;
        moves = λ room nothing.
            f.moves (roomy (append-nil_left here f.given nothing) room)
              (append-nil_right here f.given nothing);
      }

  pub fill_loop-IsFilled :
      (ids : List ℕ) (tree : Option VfsTree) (expression : List ℕ) (index : ℕ) (added : Bool)
      (buffer : Buffer) (all : List Entry)
      → offers name_match tree expression ids ≡ ok all
      → IsFilled tree expression ids index added buffer all
  unfolding fill_loop offers
  fill_loop-IsFilled [] tree expression index added buffer all e =
      let none_passed : index ≡ index + 0 = omega arith in
      let answer = if added then s_ok else error_no_more_files in
      record {
        passed = 0;
        answer = answer;
        after = buffer;
        given = [];
        rest = [];
        ran = ap (λ i. ok (i, answer, buffer)) none_passed;
        pending = refl;
        whole = sym (ok-inj e);
        wrote = sym (append-nil (contents buffer));
        ends = λ _. refl;
        moves = λ _ _. refl;
      }
  fill_loop-IsFilled (id ∷ ids) tree expression index added buffer all e =
      let (entry, later, there, offered, listed) = offers-step tree expression id ids all e in
      let name = widen entry.name in
      let call = fill name (basic_info entry) buffer in
      let entered = fill_loop-round tree expression id ids index added buffer entry there in
      elim (Bool-cases (is_match name_match expression name)) [
        | inr miss ↦
            went_on tree expression id ids index added added buffer buffer all [] later
              (entered ∙ rw (miss, round) refl) (sym listed ∙ rw miss refl)
              (sym (append-nil (contents buffer))) (λ _ room. room)
              (fill_loop-IsFilled ids tree expression (index + 1) added buffer later offered)
        | inl hit ↦ elim (Bool-cases (call.0 == error_insufficient_buffer)) [
          | inl full ↦
              let code : call.0 ≡ error_insufficient_buffer = ground arith in
              stopped tree expression id ids index added buffer all (if added then s_ok else call.0)
                entry (entered ∙ rw (hit, round) (rw (full, round) refl)) e (rw code refl)
                (λ e'. ends_not added (rw code refl) e')
          | inr fits ↦ elim (Bool-cases (failed_hr call.0)) [
            | inl fails ↦
                stopped tree expression id ids index added buffer all call.0 entry
                  (entered ∙ rw (hit, round) (rw (fits, round) (rw (fails, round) refl))) e fails
                  (buffers.never_ends name (basic_info entry) buffer)
            | inr taken ↦
                went_on tree expression id ids index added true buffer call.1 all
                  ((name, basic_info entry) ∷ []) later
                  (entered ∙ rw (hit, round) (rw (fits, round) (rw (taken, round) refl)))
                  (sym listed ∙ rw hit refl) (buffers.takes name (basic_info entry) buffer taken)
                  (λ e'. cc)
                  (fill_loop-IsFilled ids tree expression (index + 1) true call.1 later offered)
          ]
        ]
      ]
