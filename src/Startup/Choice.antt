-- ===== src/Startup/Choice.antt =====
-- What the user chose is what holds afterwards.
use linux2win.Base.{
  ◌≡◌, refl, Bool, true, false, none, some, not, ◌&&◌, [], arith, Bytes, if◌then◌else◌,
}
use linux2win.Startup.{
  run_key, config_key, prompt_shown, startup_enabled, carry_out, Registry, RegistryApi, granted,
  denied, already_configured, is_startup_enabled, is_configured, save_choice, enable_startup,
  disable_startup, set_enabled, prompt_user_permission,
}

-- Windows lets the program use its own keys.
pub record IsOpen (api : RegistryApi) : Type 0 where
  pub reads : api.can_read config_key ≡ true
  pub writes : api.can_write run_key ≡ true
  pub creates : api.can_create config_key ≡ true
  pub sets_enabled : api.can_set startup_enabled ≡ true
  pub sets_shown : api.can_set prompt_shown ≡ true
  pub deletes : api.can_delete ≡ true

is_startup_enabled-agreed :
    (api : RegistryApi) (reg : Registry)
    → IsOpen api
    → reg.enabled ≡ some 1
    → is_startup_enabled api reg ≡ true
unfolding is_startup_enabled
is_startup_enabled-agreed api reg ready e = ground arith

is_startup_enabled-refused :
    (api : RegistryApi) (reg : Registry)
    → reg.command ≡ none
    → reg.enabled ≡ some 0
    → is_startup_enabled api reg ≡ false
unfolding is_startup_enabled
is_startup_enabled-refused api reg bare e = ground arith

carried_out :
    (api : RegistryApi) (reg : Registry) (path : Bytes) (agreed : Bool)
    → IsOpen api
    → let after = (carry_out api (save_choice api reg agreed) path agreed).0 in
      (after.shown ≡ some 1)
      × (after.enabled ≡ some (if agreed then 1 else 0))
      × (agreed ≡ false → after.command ≡ none)
unfolding save_choice enable_startup disable_startup set_enabled
carried_out api reg path true ready = (ground arith, ground arith, λ e. cc)
carried_out api reg path false ready = (ground arith, ground arith, λ e. ground arith)

-- Where Windows lets the program read and write its own registry values, a user who is asked gets what he
-- chose: the result says so, the daemon is taken to start with Windows exactly if he agreed, and the next
-- time, unless forced, nobody is asked and nothing is changed, whatever the answer would be.
pub prompt_user_permission-decides :
    (api : RegistryApi) (reg : Registry) (path later_path : Bytes) (force agreed later : Bool)
    → IsOpen api
    → (not force && is_configured api reg) ≡ false
    → let (after, events, result) = prompt_user_permission api reg path force agreed in
      (result ≡ (if agreed then granted else denied))
      × (is_startup_enabled api after ≡ agreed)
      × (prompt_user_permission api after later_path false later ≡ (after, [], already_configured))
unfolding prompt_user_permission is_configured
prompt_user_permission-decides api reg path later_path force agreed later ready asked =
    let after = (carry_out api (save_choice api reg agreed) path agreed).0 in
    let (shown, enabled, bare) = carried_out api reg path agreed ready in
    let done : prompt_user_permission api reg path force agreed
        ≡ carry_out api (save_choice api reg agreed) path agreed =
      rw asked refl in
    let again : prompt_user_permission api after later_path false later
        ≡ (after, [], already_configured) =
      rw ready.reads (rw shown refl) in
    rw asked (result agreed, holds agreed enabled bare, again)
  where
    result :
        (b : Bool)
        → (carry_out api (save_choice api reg b) path b).2 ≡ (if b then granted else denied)
    result true = refl
    result false = refl

    holds :
        (b : Bool)
        → (carry_out api (save_choice api reg b) path b).0.enabled ≡ some (if b then 1 else 0)
        → (b ≡ false → (carry_out api (save_choice api reg b) path b).0.command ≡ none)
        → is_startup_enabled api (carry_out api (save_choice api reg b) path b).0 ≡ b
    holds true e bare =
        is_startup_enabled-agreed api (carry_out api (save_choice api reg true) path true).0 ready e
    holds false e bare =
        is_startup_enabled-refused api (carry_out api (save_choice api reg false) path false).0
          (bare refl) e
