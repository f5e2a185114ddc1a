-- ===== src/Startup.antt =====
-- src/service/startup_manager.cpp: the registry values that say whether the daemon starts with Windows,
-- and the question to the user. What Windows lets the program do is a parameter.
pub mod Choice
mod Runs
use linux2win.Base.{
  ℕ, ◌+◌, ◌*◌, Bool, true, false, not, ◌&&◌, ◌||◌, Option, none, some, List, [], ◌∷◌, ◌++◌, Bytes,
  codes, length, leb, same, ◌==◌, if◌then◌else◌,
}

-- REG_KEY_PATH and CONFIG_KEY_PATH, below HKEY_CURRENT_USER.
pub data Key : Type 0 where
  run_key config_key : Key

-- The values that the program writes.
pub data Value : Type 0 where
  run_command prompt_shown startup_enabled : Value

-- The values `Linux2Win` of the run key, and `PermissionPromptShown` and `StartupEnabled` of the other.
pub record Registry : Type 0 where
  pub command : Option (List ℕ)
  pub shown : Option ℕ
  pub enabled : Option ℕ

-- Which calls succeed: `RegOpenKeyExW` to read and to write, `RegCreateKeyExW`, `RegSetValueExW` and
-- `RegDeleteValueW`.
pub record RegistryApi : Type 0 where
  pub can_read : Key → Bool
  pub can_write : Key → Bool
  pub can_create : Key → Bool
  pub can_set : Value → Bool
  pub can_delete : Bool

pub data PermissionResult : Type 0 where
  granted denied already_configured : PermissionResult

-- What is done besides: a process with a command line, the message box, the shortcuts.
pub data Event : Type 0 where
  runs : Bytes → Event
  asks makes_shortcuts : Event

-- The value is stored with its end, in units of two bytes, and the buffer has 260 of these.
abbrev pub query_command : Registry → Option (List ℕ)
query_command reg = elim reg.command [
  | none ↦ none
  | some text ↦ if leb (2 * (length text + 1)) 520 then some text else none
]

abbrev pub is_one : Option ℕ → Bool
is_one none = false
is_one (some n) = n == 1

abbrev pub is_text : Option (List ℕ) → Bool
is_text none = false
is_text (some text) = not (same text [])

module _ (api : RegistryApi) where
  unfoldable pub is_startup_enabled : Registry → Bool
  is_startup_enabled reg =
      (api.can_read run_key && is_text (query_command reg))
      || (api.can_read config_key && is_one reg.enabled)

  -- The value `StartupEnabled`, in a key that is made if it is not there.
  unfoldable pub set_enabled : Registry → ℕ → Registry
  set_enabled reg n =
      if api.can_create config_key && api.can_set startup_enabled
      then record reg { enabled = some n }
      else reg

  abbrev pub set_command : Registry → List ℕ → Registry
  set_command reg text =
      if api.can_create run_key && api.can_set run_command
      then record reg { command = some text }
      else reg

  abbrev pub create_task : Bytes → Bytes
  create_task path =
      codes "schtasks /create /tn \"Linux2Win Resident Daemon\" /tr \"\\\""
      ++ (path ++ codes "\\\" --daemon\" /sc onlogon /rl highest /f")

  -- What the scheduler answers is not looked at.
  unfoldable pub enable_startup : Registry → Bytes → Registry × List Event × Bool
  unfolding set_enabled
  enable_startup reg path =
      let registered = set_command reg (codes "\"" ++ (path ++ codes "\" --daemon")) in
      (set_enabled registered 1, runs (create_task path) ∷ [], true)

  abbrev pub delete_task : Bytes
  delete_task = codes "schtasks /delete /tn \"Linux2Win Resident Daemon\" /f"

  abbrev pub delete_command : Registry → Registry
  delete_command reg =
      if api.can_write run_key && api.can_delete then record reg { command = none } else reg

  unfoldable pub disable_startup : Registry → Registry × List Event × Bool
  unfolding set_enabled
  disable_startup reg = (set_enabled (delete_command reg) 0, runs delete_task ∷ [], true)

  unfoldable pub is_configured : Registry → Bool
  is_configured reg = api.can_read config_key && is_one reg.shown

  abbrev pub set_shown : Registry → Registry
  set_shown reg = if api.can_set prompt_shown then record reg { shown = some 1 } else reg

  abbrev pub set_choice : Registry → Bool → Registry
  set_choice reg agreed =
      if api.can_set startup_enabled
      then record reg { enabled = some (if agreed then 1 else 0) }
      else reg

  -- The choice, saved before it is carried out.
  unfoldable pub save_choice : Registry → Bool → Registry
  save_choice reg agreed =
      if api.can_create config_key then set_choice (set_shown reg) agreed else reg

  abbrev pub carry_out : Registry → Bytes → Bool → Registry × List Event × PermissionResult
  carry_out reg path true =
      let (after, events, done) = enable_startup reg path in
      (after, asks ∷ (events ++ (makes_shortcuts ∷ [])), granted)
  carry_out reg path false =
      let (after, events, done) = disable_startup reg in (after, asks ∷ events, denied)

  -- `agreed` is the answer that the user gives if asked, `path` the program's own path.
  unfoldable pub prompt_user_permission :
      Registry → Bytes → Bool → Bool → Registry × List Event × PermissionResult
  unfolding is_configured save_choice enable_startup disable_startup
  prompt_user_permission reg path force agreed =
      if not force && is_configured reg
      then (reg, [], already_configured)
      else carry_out (save_choice reg agreed) path agreed
