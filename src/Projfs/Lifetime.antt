-- ===== src/Projfs/Lifetime.antt =====
-- src/vfs/projfs_mount.cpp: `ProjFsApi::load`, and `start`, `stop` and the destructor of a `ProjFsMount`,
-- with the calls that begin and end a virtualization.
use linux2win.Base.{
  ℕ, ◌+◌, Bool, true, false, not, ◌&&◌, Option, none, some, List, [], ◌∷◌, ◌++◌, ◌==◌,
  if◌then◌else◌, Result, ok, demand, ◌>>=◌, ◌>>◌,
}
use linux2win.Projfs.{failed_hr, hresult_from_win32}

abbrev pub error_already_exists : ℕ
error_already_exists = hresult_from_win32 183

pub record ProjFsMount : Type 0 where
  pub active : Bool
  pub instance_context : Option ℕ

abbrev pub new_mount : ProjFsMount
new_mount = record { active = false; instance_context = none }

-- Is the library there, and which of its functions; the pointer of one that is missing is null.
pub record ProjFsApi : Type 0 where
  pub has_module : Bool
  pub mark_directory_as_placeholder : Bool
  pub start_virtualizing : Bool
  pub stop_virtualizing : Bool
  pub fill_dir_entry_buffer : Bool
  pub write_placeholder_info : Bool
  pub write_file_data : Bool

-- `g_projfs_api` in a new process.
abbrev pub no_api : ProjFsApi
no_api = record {
  has_module = false;
  mark_directory_as_placeholder = false;
  start_virtualizing = false;
  stop_virtualizing = false;
  fill_dir_entry_buffer = false;
  write_placeholder_info = false;
  write_file_data = false;
}

-- What Windows answers to one `start`: the library that it loads, to
-- `PrjMarkDirectoryAsPlaceholder`, to `PrjStartVirtualizing`, and what this leaves in the context.
pub record Answers : Type 0 where
  pub library : ProjFsApi
  pub marked : ℕ
  pub started : ℕ
  pub context : Option ℕ

abbrev pub is_complete : ProjFsApi → Bool
is_complete api =
    (api.mark_directory_as_placeholder && api.start_virtualizing && api.stop_virtualizing)
    && (api.fill_dir_entry_buffer && api.write_placeholder_info && api.write_file_data)

-- The functions stay as they are once the library is there, also if some are missing.
unfoldable pub load : ProjFsApi → ProjFsApi → ProjFsApi × Bool
load api library =
    if api.has_module
    then (api, true)
    else if not library.has_module
    then (api, false)
    else (library, is_complete library)

-- A virtualization that begins, with its context, or ends.
pub data Call : Type 0 where
  begins : Option ℕ → Call
  ends : ℕ → Call

abbrev pub virtualize : ProjFsMount → Answers → ProjFsMount × List Call × Bool
virtualize m a =
    if failed_hr a.started
    then (record m { instance_context = a.context }, [], false)
    else (record { active = true; instance_context = a.context }, begins a.context ∷ [], true)

-- A call through a null pointer is undefined behaviour.
abbrev pub mark_and_start :
    ProjFsApi → ProjFsMount → Answers → Result (ProjFsApi × ProjFsMount × List Call × Bool)
mark_and_start api m a = do
  demand api.mark_directory_as_placeholder
  if failed_hr a.marked && not (a.marked == error_already_exists)
      then ok (api, m, [], false)
      else (do
        demand api.start_virtualizing
        let (after, calls, done) = virtualize m a
        ok (api, after, calls, done))

unfoldable pub start :
    ProjFsApi → ProjFsMount → Answers → Result (ProjFsApi × ProjFsMount × List Call × Bool)
unfolding load
start api m a =
    let (loaded, there) = load api a.library in
    if m.active
    then ok (api, m, [], true)
    else if not there
    then ok (loaded, m, [], false)
    else mark_and_start loaded m a

-- Also the destructor.
unfoldable pub stop : ProjFsApi → ProjFsMount → ProjFsMount × List Call
stop api m = if not m.active then (m, []) else elim m.instance_context [
  | none ↦ (record m { active = false }, [])
  | some c ↦
      if api.stop_virtualizing
      then (record { active = false; instance_context = none }, ends c ∷ [])
      else (record m { active = false }, [])
]

-- What happens to a mount; `loading` is a start of another mount of the process.
pub data Action : Type 0 where
  starting : Answers → Action
  loading : ProjFsApi → Action
  stopping : Action

unfoldable pub act : ProjFsApi → ProjFsMount → Action → Result (ProjFsApi × ProjFsMount × List Call)
unfolding start stop
act api m (starting a) = start api m a >>= λ (later, after, calls, done). ok (later, after, calls)
act api m (loading library) = ok ((load api library).0, m, [])
act api m stopping = let (after, calls) = stop api m in ok (api, after, calls)

unfoldable pub run :
    ProjFsApi → ProjFsMount → List Action → Result (ProjFsApi × ProjFsMount × List Call)
unfolding act
run api m [] = ok (api, m, [])
run api m (action ∷ actions) = do
  (next, n, calls) ← act api m action
  (last, after, later) ← run next n actions
  ok (last, after, calls ++ later)

abbrev pub one_if : Bool → ℕ
one_if b = if b then 1 else 0

abbrev pub begun : ℕ → List Call → ℕ
begun c [] = 0
begun c (begins none ∷ calls) = begun c calls
begun c (begins (some k) ∷ calls) = one_if (k == c) + begun c calls
begun c (ends k ∷ calls) = begun c calls

abbrev pub ended : ℕ → List Call → ℕ
ended c [] = 0
ended c (begins k ∷ calls) = ended c calls
ended c (ends k ∷ calls) = one_if (k == c) + ended c calls

-- Does the virtualization of a context run?
abbrev pub running : ℕ → ProjFsMount → ℕ
running c m =
    if m.active then elim m.instance_context [ none ↦ 0 | some k ↦ one_if (k == c) ] else 0
