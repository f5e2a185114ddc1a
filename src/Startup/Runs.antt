-- ===== src/Startup/Runs.antt =====
-- A user who agrees, on a computer that lets the program write its keys.
use linux2win.Base.{◌≡◌, refl, true, false, none, [], Bytes, codes}
use linux2win.Startup.{
  Registry, RegistryApi, granted, already_configured, is_configured, is_startup_enabled,
  prompt_user_permission,
}
use linux2win.Startup.Choice.{IsOpen, prompt_user_permission-decides}

abbrev api : RegistryApi
api = record {
  can_read = λ key. true;
  can_write = λ key. true;
  can_create = λ key. true;
  can_set = λ value. true;
  can_delete = true;
}

api-IsOpen : IsOpen api
api-IsOpen = record {
  reads = refl;
  writes = refl;
  creates = refl;
  sets_enabled = refl;
  sets_shown = refl;
  deletes = refl;
}

abbrev bare : Registry
bare = record { command = none; shown = none; enabled = none }

abbrev program : Bytes
program = codes "daemon.exe"

prompt_user_permission-decides_example :
    let (after, events, result) = prompt_user_permission api bare program false true in
    (result ≡ granted)
    × (is_startup_enabled api after ≡ true)
    × (prompt_user_permission api after program false false ≡ (after, [], already_configured))
prompt_user_permission-decides_example =
    prompt_user_permission-decides api bare program program false true false api-IsOpen
      (unfold is_configured in refl)
