-- ===== src/Command/Quiet.antt =====
-- What the commands do with a reader opens no window.
use linux2win.Base.{
  ℕ, suc, Bool, true, false, not, Option, none, some, List, [], ◌∷◌, ◌++◌, Bytes, Result, ok,
  failed, fault, stuck, attempt, ◌>>=◌, All, All-append, if◌then◌else◌,
}
use linux2win.Ext4.Reader.{Ext4Reader}
use linux2win.Ext4.File.{FileStat, stat_inode}
use linux2win.Ext4.Directory.{DirEntryInfo}
use linux2win.Ext4.Path.{stat_path, list_directory_path, read_file_by_path}
use linux2win.Disk.Classified.{IsMountSafe}
use linux2win.Command.{
  Event, says, opens, lists, prints, creates_file, row_of, rows, list_rows, query_path, ls_on,
  print_file, cat_on, written, Files, destination, export_file, export_on, export_loop, exported,
  listing_header,
}

abbrev pub IsSafeEvent : Event → Type 0
IsSafeEvent (opens part calls) = IsMountSafe part
IsSafeEvent other = Unit {0}

-- If the call comes back with events, all of them are safe.
abbrev pub Safely {ℓ} : {A : Type ℓ} → (A → List Event) → Result A → Type 0
Safely events (ok a) = All IsSafeEvent (events a)
Safely events failed = Unit {0}
Safely events fault = Unit {0}
Safely events stuck = Unit {0}

abbrev pub whole : List Event → List Event
whole events = events

-- A call without events in front.
pub bind-Safely {ℓ κ} :
    {A : Type ℓ} {B : Type κ} (events : B → List Event) (m : Result A) (f : A → Result B)
    → ((a : A) → Safely events (f a))
    → Safely events (m >>= f)
bind-Safely events (ok a) f h = h a
bind-Safely events failed f h = tt
bind-Safely events fault f h = tt
bind-Safely events stuck f h = tt

-- A call with events in front.
pub then-Safely {ℓ κ} :
    {A : Type ℓ} {B : Type κ} (before : A → List Event) (events : B → List Event) (m : Result A)
    (f : A → Result B)
    → Safely before m
    → ((a : A) → All IsSafeEvent (before a) → Safely events (f a))
    → Safely events (m >>= f)
then-Safely before events (ok a) f s h = h a s
then-Safely before events failed f s h = tt
then-Safely before events fault f s h = tt
then-Safely before events stuck f s h = tt

pub if-Safely {ℓ} :
    {A : Type ℓ} (events : A → List Event) (b : Bool) (x y : Result A)
    → Safely events x
    → Safely events y
    → Safely events (if b then x else y)
if-Safely events true x y sx sy = sx
if-Safely events false x y sx sy = sy

module _ (fuel depth : ℕ) where
  rows-Safely :
      (r : Ext4Reader) (entries : List DirEntryInfo) → Safely whole (rows fuel depth r entries)
  unfolding rows
  rows-Safely r [] = tt
  rows-Safely r (entry ∷ entries) =
      bind-Safely whole (attempt (stat_inode fuel depth r entry.inode))
        (λ stat. rows fuel depth r entries >>= λ rest. ok (lists (row_of entry stat) ∷ rest))
        (λ stat.
          then-Safely whole whole (rows fuel depth r entries)
            (λ rest. ok (lists (row_of entry stat) ∷ rest)) (rows-Safely r entries)
            (λ rest safe. (tt, safe)))

  list_rows-Safely :
      (r : Ext4Reader) (query : Bytes) (o : Option (List DirEntryInfo))
      → Safely whole (list_rows fuel depth r query o)
  list_rows-Safely r query none = (tt, tt)
  list_rows-Safely r query (some entries) =
      then-Safely whole whole (rows fuel depth r entries)
        (λ lines. ok (says (listing_header query) ∷ lines)) (rows-Safely r entries)
        (λ lines safe. (tt, safe))

  pub ls_on-Safely : (r : Ext4Reader) (path : Bytes) → Safely whole (ls_on fuel depth r path)
  unfolding ls_on
  ls_on-Safely r path =
      bind-Safely whole (attempt (list_directory_path fuel depth r (query_path fuel depth path)))
        (list_rows fuel depth r (query_path fuel depth path))
        (list_rows-Safely r (query_path fuel depth path))

  print_file-Safely :
      (r : Ext4Reader) (path : Bytes) (o : Option FileStat)
      → Safely whole (print_file fuel depth r path o)
  print_file-Safely r path none = (tt, tt)
  print_file-Safely r path (some st) =
      if-Safely whole (not st.is_regular) _ _ (tt, tt)
        (bind-Safely whole (attempt (read_file_by_path fuel depth r path 0 st.size))
          (λ content. ok (elim content [ none ↦ [] | some bytes ↦ prints bytes ∷ [] ])) shown)
    where
      shown :
          (content : Option Bytes)
          → All IsSafeEvent (elim content [ none ↦ [] | some bytes ↦ prints bytes ∷ [] ])
      shown none = tt
      shown (some bytes) = (tt, tt)

  pub cat_on-Safely : (r : Ext4Reader) (path : Bytes) → Safely whole (cat_on fuel depth r path)
  unfolding cat_on
  cat_on-Safely r path =
      bind-Safely whole (attempt (stat_path fuel depth r path)) (print_file fuel depth r path)
        (print_file-Safely r path)

  written-safe : (chunks : List Bytes) → All IsSafeEvent (written fuel depth chunks)
  written-safe [] = tt
  written-safe (c ∷ cs) = (tt, written-safe cs)

  export_file-Safely :
      (files : Files) (r : Ext4Reader) (source folder : Bytes) (o : Option FileStat)
      → Safely whole (export_file fuel depth files r source folder o)
  export_file-Safely files r source folder none = tt
  export_file-Safely files r source folder (some st) =
      let target = destination fuel depth files source folder in
      if-Safely whole (not st.is_regular) _ _ tt (
        if-Safely whole (not (files.can_create target)) _ _ (tt, tt)
          (bind-Safely whole (export_loop fuel depth (suc st.size) r source st.size 0)
            (λ chunks. ok (
              creates_file target
              ∷ (written fuel depth chunks ++ (says (exported source target st.size) ∷ []))))
            (λ chunks. (
              tt,
              All-append IsSafeEvent (written fuel depth chunks)
                  (says (exported source target st.size) ∷ []) (written-safe chunks) (tt, tt),
            ))))

  pub export_on-Safely :
      (files : Files) (r : Ext4Reader) (source folder : Bytes)
      → Safely whole (export_on fuel depth files r source folder)
  unfolding export_on
  export_on-Safely files r source folder =
      bind-Safely whole (attempt (stat_path fuel depth r source))
        (export_file fuel depth files r source folder) (export_file-Safely files r source folder)
