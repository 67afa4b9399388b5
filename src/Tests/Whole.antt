-- ===== src/Tests/Whole.antt =====
-- The theorems on whole programs, applied.
use kaigara.Config.CmdEnv.{
  add_apps, add_entries, add_entry, add_scope, add_scopes, build_cmd_env, entry_text, inherited,
}
use kaigara.Storage.Memory.{app_of, scope_of, set_scope}
use kaigara.Base.Int64.{negsuc, add_one}
use kaigara.Storage.Sql.{
  as_int64, decrypt_entry, entries_of, get_entries, get_entry, get_names, is_encrypted, make_scope,
  put_scope, write_create,
}
use kaigara.Base.{inl, inr, split}
use kaigara.Runner.Launch.{parse_app_names, write_files}
use kaigara.Config.CmdEnv.{
  add_apps, add_entries, add_entry, add_scope, add_scopes, build_cmd_env, entry_text, inherited,
}
use kaigara.Runner.Supervise.{arm, on_restart, on_timer, step, supervise_child}
use kaigara.Runner.Watch.{check_apps, check_scope, check_scopes, watched_apps}
use kaigara.Runner.Run.{
  message, on_deliver, on_tick, parse_scopes, run_child, run_started, selected,
}
use kaigara.Storage.Memory.{app_of, scope_of, set_scope}
use kaigara.Base.Int64.{add_one, int_eq}
use kaigara.Storage.Sql.{
  as_int64, decrypt_entry, entries_of, get_current_version, get_entries, get_entry,
  get_latest_version, get_names, is_encrypted, make_scope, put_scope, write_create, write_update,
}
use kaigara.Base.{◌≡◌, ◌⊎◌, refl, false, true, none, some, [], ◌∷◌, ◌++◌, Str, bytes, str_eq, arith}
use kaigara.Base.Dict
use kaigara.Base.Dict.{Dict}
use kaigara.Base.Exec.{ok}
use kaigara.Base.Int64.{ℤ, pos}
use kaigara.Value.{Value, text, int64, j_null}
use kaigara.Storage.Gorm.{Data}
use kaigara.Storage.Sql.{version_key, read, write, get_entry}
use kaigara.Config.Service.{KaigaraConfig}
use kaigara.Commands.Main.{Host, kaidump_main}
use kaigara.Commands.Main.Quiet.{Console, kaidump_main-stdout}
use kaigara.Runner.Stdin.{Pipe, relay_stdin}
use kaigara.Runner.Stdin.Relayed.{IsOpen, Got, ending, relay_stdin_lem}
use kaigara.Runner.ExitCode.{WaitError, exit_error, exit_code, killed, shell_status}
use kaigara.Runner.Supervise.{Supervisor, terminate, kill}
use kaigara.Runner.Supervise.Laws.{SomeAction}
use kaigara.Runner.Supervise.Escalation.{IsKill}
use kaigara.Runner.Launch.{FileSystem, Launcher}
use kaigara.Runner.Run.{tick, Watcher, kaigara_run}
use kaigara.Runner.Run.Rotation.{IsTerminateAt, write_stops_child}
use kaigara.Runner.Run.Exit.{kaigara_run-exit_code}
use kaigara.Tests.{table-IsTable, Service, empty_service, storage}

abbrev app : Str
app = bytes "peatio"

abbrev public : Str
public = bytes "public"

abbrev secret : Str
secret = bytes "secret"

abbrev name : Str
name = bytes "key"

abbrev value : Value
value = text (bytes "value")

-- A pipe that keeps what is written.
abbrev pipe : Pipe
pipe = record { State = Str; write = λ s w. (ok tt, w ++ s); close = λ w. w }

pipe-IsOpen : IsOpen pipe
pipe-IsOpen = record {
  contents = λ w. w;
  takes = λ s w. refl;
  appends = λ s w. refl;
  closes = λ w. refl;
}

-- "a", a carriage return and a newline, and "b" without one.
abbrev input : Str
input = b'a' ∷ (b'\r' ∷ (b'\n' ∷ (b'b' ∷ [])))

relay_stdin_lem_example :
    ((relay_stdin pipe 16 none 5 input []).0 ≡ ending none)
    × Got pipe-IsOpen input [] (relay_stdin pipe 16 none 5 input []).1
relay_stdin_lem_example = relay_stdin_lem pipe-IsOpen 16 5 none input [] (omega arith) (omega arith)

-- A row at version 4, and a service that has loaded it, with another scope that has no row.
abbrev row : Data
row = record { app_name = app; scope = secret; value = some j_null; version = pos 4 }

abbrev service : Service
service = record {
  db = row ∷ [];
  ds =
      (
        app,
        (public, (version_key, int64 (pos 4)) ∷ [])
            ∷ ((secret, (version_key, int64 (pos 4)) ∷ []) ∷ []),
      )
      ∷ [];
  world = tt;
}

abbrev watcher : Watcher storage
watcher = record { watching = true; pending = none; store = service }

abbrev sprint : ℤ → Str
sprint n = []

abbrev stopped : Supervisor
stopped = record { kill_deadline = none; actions = terminate 2000 ∷ (kill 10000 ∷ []) }

write_stops_child_example :
    SomeAction (IsTerminateAt 2000) stopped.actions × SomeAction IsKill stopped.actions
unfolding read write make_scope as_int64 add_one app_of scope_of set_scope entries_of put_scope
    write_create Dict.lookup Dict.insert str_eq write_update get_current_version run_child
    check_apps check_scopes check_scope get_latest_version int_eq supervise_child step message
    on_deliver on_tick selected arm on_restart on_timer
write_stops_child_example =
    write_stops_child sprint app secret (app ∷ (bytes "global" ∷ [])) (public ∷ (secret ∷ [])) 0
      1000 2000 10000 row ((1500, tick) ∷ []) [] [] none service stopped watcher (inl refl)
      (inr (inl refl)) ((pos 4, pos 4, refl, refl), ((pos 4, pos 5, refl, refl), tt)) table-IsTable
      refl (λ e. ground arith) refl refl refl tt tt (omega arith) refl

abbrev disk : FileSystem
disk = record {
  Disk = Dict Str;
  mkdir_all = λ path d. (ok tt, d);
  write_file = λ path content d. (ok tt, Dict.insert path content d);
  dir = λ path. path;
}

abbrev launcher : Launcher
launcher = record {
  stdin_pipe = ok tt;
  stdout_pipe = ok tt;
  stderr_pipe = ok tt;
  start = λ cmd args vars. ok tt;
}

-- A child that SIGTERM has ended.
abbrev by_sigterm : WaitError
by_sigterm = exit_error (some (record { signaled = true; signal = 15 })) (negsuc 0)

kaigara_run-exit_code_example : some 143 ≡ some (shell_status (killed 15))
unfolding read write make_scope as_int64 add_one app_of scope_of set_scope entries_of put_scope
    write_create Dict.lookup Dict.insert str_eq kaigara_run build_cmd_env add_apps add_scopes
    parse_scopes parse_app_names split add_scope get_entries get_names get_entry is_encrypted
    decrypt_entry Dict.keys add_entries add_entry entry_text inherited write_files run_started
    run_child selected on_tick watched_apps check_apps check_scopes check_scope get_current_version
    get_latest_version int_eq supervise_child exit_code
kaigara_run-exit_code_example =
    kaigara_run-exit_code storage disk sprint launcher app secret (bytes "true") none [] []
      ((1000, tick) ∷ []) [] 2000 (killed 15) by_sigterm (some 143)
      (record { store = empty_service; disk = [] }) (λ vars. refl) refl tt refl

abbrev settings : KaigaraConfig
settings = record {
  storage = bytes "sql";
  vault_token = [];
  vault_addr = [];
  deployment_id = bytes "opendax";
  encrypt_method = bytes "plaintext";
  aes_key = [];
  app_names = app;
  scopes = secret;
}

-- A machine with a service and a console.
abbrev host : Host
host = record {
  World = Service × Str;
  read_file = λ path w. (ok [], w);
  write_file = λ path mode b w. (ok tt, w);
  getwd = λ w. (ok [], w);
  print = λ s w. (w.0, w.1 ++ s);
  read_config = λ w. (ok settings, w);
  connect = λ addr token. ok tt;
  open_database = λ deployment. ok tt;
  mount = λ kind. record { storage = storage; get = λ w. w.0; put = λ s w. (s, w.1) };
  parse_secrets = λ s. ok [];
  parse_defaults = λ s. ok [];
  encode_dump = λ d. ok (bytes "secrets:");
  sprint = λ v. [];
}

abbrev console : Console host
console = record {
  stdout = λ w. w.1;
  prints = λ s w. refl;
  read_config_quiet = λ w. refl;
  write_file_quiet = λ path mode b w. refl;
  put_quiet = λ kind s w. refl;
}

kaidump_main-stdout_example :
    let after = console.stdout (kaidump_main host (bytes "outputs.yaml") false (service, [])).1 in
    (after ≡ [])
    ⊎ (after ≡ bytes "# Saved the dump into " ++ (bytes "outputs.yaml" ++ (b'\n' ∷ [])))
kaidump_main-stdout_example = kaidump_main-stdout console (bytes "outputs.yaml") (service, [])
