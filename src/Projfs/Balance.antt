-- ===== src/Projfs/Balance.antt =====
-- Over any history of starts and stops, virtualizations begin and end in balance.
use linux2win.Base.{
  ℕ, ◌+◌, ◌≡◌, refl, true, false, not, ◌&&◌, none, some, List, [], ◌∷◌, ◌++◌, arith, ◌==◌, Result,
  ok, fault, All, ◌∙◌, ◌>>=◌, inl, inr, Bool-cases, ◌⊎◌,
}
use linux2win.Projfs.{failed_hr}
use linux2win.Projfs.Lifetime.{
  error_already_exists, ProjFsMount, ProjFsApi, no_api, Answers, Call, begins, ends, is_complete,
  load, mark_and_start, virtualize, start, stop, Action, starting, loading, stopping, act, run,
  begun, ended, running,
}

begun-append : (c : ℕ) (xs ys : List Call) → begun c (xs ++ ys) ≡ begun c xs + begun c ys
begun-append c [] ys = omega arith
begun-append c (begins none ∷ xs) ys = begun-append c xs ys
begun-append c (begins (some k) ∷ xs) ys = omega (arith, begun-append c xs ys)
begun-append c (ends k ∷ xs) ys = begun-append c xs ys

ended-append : (c : ℕ) (xs ys : List Call) → ended c (xs ++ ys) ≡ ended c xs + ended c ys
ended-append c [] ys = omega arith
ended-append c (begins k ∷ xs) ys = ended-append c xs ys
ended-append c (ends k ∷ xs) ys = omega (arith, ended-append c xs ys)

-- The library is not there, or has all functions.
abbrev IsSound : ProjFsApi → Type 0
IsSound api = (api.has_module ≡ false) ⊎ (is_complete api ≡ true)

-- An action in a process whose library, where there is one, has all functions.
abbrev IsSoundAction : Action → Type 0
IsSoundAction (starting a) = IsSound a.library
IsSoundAction (loading library) = IsSound library
IsSoundAction stopping = Unit {0}

load-IsSound :
    (api library : ProjFsApi) → IsSound api → IsSound library → IsSound (load api library).0
unfolding load
load-IsSound api library sound both = ground arith

-- While the mount is active, the library has all functions.
abbrev IsSteady : ProjFsApi → ProjFsMount → Type 0
IsSteady api m = IsSound api × ((m.active ≡ false) ⊎ (is_complete api ≡ true))

-- What an action does to a context.
abbrev Balances : ℕ → ProjFsMount → ProjFsApi × ProjFsMount × List Call → Type 0
Balances c m (later, after, calls) =
    IsSteady later after × (running c m + begun c calls ≡ running c after + ended c calls)

-- It comes back, and the context is balanced.
abbrev EndsBalanced : ℕ → ProjFsMount → Result (ProjFsApi × ProjFsMount × List Call) → Type 0
EndsBalanced c m call = (x : ProjFsApi × ProjFsMount × List Call) × (call ≡ ok x) × Balances c m x

complete_mark :
    (api : ProjFsApi) → is_complete api ≡ true → api.mark_directory_as_placeholder ≡ true
complete_mark api h = ground arith

complete_start : (api : ProjFsApi) → is_complete api ≡ true → api.start_virtualizing ≡ true
complete_start api h = ground arith

complete_stop : (api : ProjFsApi) → is_complete api ≡ true → api.stop_virtualizing ≡ true
complete_stop api h = ground arith

-- A library that was loaded has all functions.
load_complete :
    (api library : ProjFsApi)
    → IsSound api
    → IsSound library
    → (load api library).1 ≡ true
    → is_complete (load api library).0 ≡ true
unfolding load
load_complete api library sound both there = ground arith

begin_balance :
    (c : ℕ) (m : ProjFsMount) (a : Answers)
    → m.active ≡ false
    → let (after, calls, done) = virtualize m a in
      running c m + begun c calls ≡ running c after + ended c calls
begin_balance c m a idle = ground arith

start_idle :
    (c : ℕ) (api : ProjFsApi) (m : ProjFsMount) (a : Answers)
    → is_complete api ≡ true
    → m.active ≡ false
    → EndsBalanced c m
        (mark_and_start api m a >>= λ (later, after, calls, done). ok (later, after, calls))
start_idle c api m a whole idle =
    let marks = complete_mark api whole in
    let starts = complete_start api whole in
    elim (Bool-cases (failed_hr a.marked && not (a.marked == error_already_exists))) [
      | inl bad ↦ ((api, m, []), rw (marks, bad) refl, ((inr whole, inr whole), omega arith))
      | inr good ↦
          let (after, calls, done) = virtualize m a in
          (
            (api, after, calls),
            rw (marks, good) (rw starts refl),
            ((inr whole, inr whole), begin_balance c m a idle),
          )
    ]

starting-loaded :
    (api : ProjFsApi) (m : ProjFsMount) (a : Answers)
    → m.active ≡ false
    → (load api a.library).1 ≡ true
    → act api m (starting a) ≡ (
        mark_and_start (load api a.library).0 m a >>= λ (later, after, calls, done).
        ok (later, after, calls))
unfolding act start
starting-loaded api m a idle there = rw (idle, there) refl

starting_balance :
    (c : ℕ) (api : ProjFsApi) (m : ProjFsMount) (a : Answers)
    → IsSteady api m
    → IsSound a.library
    → EndsBalanced c m (act api m (starting a))
unfolding act start
starting_balance c api m a (sound, live) both = elim (Bool-cases m.active) [
  | inl active ↦ ((api, m, []), rw active refl, ((sound, live), omega arith))
  | inr idle ↦ elim (Bool-cases (load api a.library).1) [
    | inl there ↦
        let (x, ran, balanced) =
          start_idle c (load api a.library).0 m a (load_complete api a.library sound both there)
            idle in
        (x, starting-loaded api m a idle there ∙ ran, balanced)
    | inr missing ↦ (
      ((load api a.library).0, m, []),
      rw (idle, missing) refl,
      ((load-IsSound api a.library sound both, inl idle), omega arith),
    )
  ]
]

stop_balance :
    (c : ℕ) (api : ProjFsApi) (m : ProjFsMount)
    → IsSteady api m
    → let (after, calls) = stop api m in
      running c m + begun c calls ≡ running c after + ended c calls
unfolding stop
stop_balance c api m (sound, inl idle) = ground arith
stop_balance c api m (sound, inr whole) = ground (arith, complete_stop api whole)

stop-idle : (api : ProjFsApi) (m : ProjFsMount) → (stop api m).0.active ≡ false
unfolding stop
stop-idle api m = ground arith

load-whole :
    (api library : ProjFsApi)
    → is_complete api ≡ true
    → IsSound library
    → is_complete (load api library).0 ≡ true
unfolding load
load-whole api library whole both = ground arith

load-IsSteady :
    (api library : ProjFsApi) (m : ProjFsMount)
    → IsSteady api m
    → IsSound library
    → IsSteady (load api library).0 m
load-IsSteady api library m (sound, inl idle) both = (load-IsSound api library sound both, inl idle)
load-IsSteady api library m (sound, inr whole) both =
    (load-IsSound api library sound both, inr (load-whole api library whole both))

act_balance :
    (c : ℕ) (api : ProjFsApi) (m : ProjFsMount) (action : Action)
    → IsSteady api m
    → IsSoundAction action
    → EndsBalanced c m (act api m action)
act_balance c api m (starting a) steady both = starting_balance c api m a steady both
act_balance c api m (loading library) steady both = (
  ((load api library).0, m, []),
  unfold act in refl,
  (load-IsSteady api library m steady both, omega arith),
)
act_balance c api m stopping steady both = (
  (api, (stop api m).0, (stop api m).1),
  unfold act in refl,
  ((steady.0, inl (stop-idle api m)), stop_balance c api m steady),
)

steps_balance :
    (c : ℕ) (api : ProjFsApi) (m : ProjFsMount) (actions : List Action)
    → IsSteady api m
    → All IsSoundAction actions
    → EndsBalanced c m (run api m actions)
unfolding run
steps_balance c api m [] steady all = ((api, m, []), refl, (steady, refl))
steps_balance c api m (action ∷ actions) steady (this, all) =
    let ((next, n, calls), ran, (steady', balanced)) = act_balance c api m action steady this in
    let ((last, after, later), ran', (steady'', balanced')) =
      steps_balance c next n actions steady' all in
    (
      (last, after, calls ++ later),
      rw ran (rw ran' refl),
      (
        steady'',
        omega (arith, balanced, balanced', begun-append c calls later, ended-append c calls later),
      ),
    )

-- Over any history of starts and stops of a mount, and of starts of others in the process, where the
-- library, if it is there, has all functions: no null pointer is called, and each virtualization with
-- a context is balanced: as often as it ran before or began, it ended or still runs; and one stop more,
-- as the destructor makes it, leaves the mount inactive.
history_balance :
    (c : ℕ) (api : ProjFsApi) (m : ProjFsMount) (actions : List Action)
    → IsSteady api m
    → All IsSoundAction actions
    → (last : ProjFsApi) × (after : ProjFsMount) × (calls : List Call) × (run api m actions
        ≡ ok (last, after, calls))
      × (running c m + begun c calls ≡ running c after + ended c calls)
      × ((stop last after).0.active ≡ false)
history_balance c api m actions steady all =
    let ((last, after, calls), ran, (_, balanced)) = steps_balance c api m actions steady all in
    (last, after, calls, ran, balanced, stop-idle last after)

-- A start whose library lacks `PrjMarkDirectoryAsPlaceholder` answers false, and the start after it,
-- of the same mount or another, calls the null pointer.
start-null :
    (m n : ProjFsMount) (a b : Answers)
    → m.active ≡ false
    → n.active ≡ false
    → a.library.has_module ≡ true
    → a.library.mark_directory_as_placeholder ≡ false
    → (start no_api m a ≡ ok (a.library, m, [], false)) × (start a.library n b ≡ fault)
unfolding start load
start-null m n a b idle rests there null =
    (rw (idle, there, null) refl, rw (rests, there, null) refl)
