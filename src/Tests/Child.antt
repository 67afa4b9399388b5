-- ===== src/Tests/Child.antt =====
-- The theorems on the supervision of the child and on the watcher, applied.
use kaigara.Base.Dict
use kaigara.Base.Dict.{Dict}
use kaigara.Config.CmdEnv.{File}
use kaigara.Runner.Launch.{FileSystem, write_files}
use kaigara.Runner.Launch.Written.{IsFileSystem, Stands, write_files-Stands}
use kaigara.Base.{
  All, Among, ℕ, ◌≤◌, ◌≡◌, ◌↔◌, ◌⊎◌, inl, inr, refl, Bool, false, true, Option, none, some, List,
  [], ◌∷◌, ◌++◌, Str, bytes, arith, All,
}
use kaigara.Base.Exec.{ok}
use kaigara.Base.Int64.{pos, int_eq}
use kaigara.Value.{int64, j_null}
use kaigara.Storage.Memory.{scope_of}
use kaigara.Storage.Sql.{version_key, as_int64, get_current_version, get_latest_version}
use kaigara.Runner.ExitCode.{no_error}
use kaigara.Runner.Supervise.{
  sigterm, sighup, exited, signalled, restart, timer, supervise_child, fresh,
}
use kaigara.Runner.Supervise.Laws.{KillsAfterGrace, SomeAction, kills_after_grace}
use kaigara.Runner.Supervise.Delivery.{Events, received, forwarded, supervise_child_exit}
use kaigara.Runner.Supervise.Escalation.{IsKill, supervise_child_escalates}
use kaigara.Runner.Watch.{
  Change, watched_apps, check_scope, check_scopes, check_apps, watch_secrets,
}
use kaigara.Runner.Watch.Laws.{Seen, watch_secrets_sound, check_apps_complete}
use kaigara.Tests.{Service, storage}

-- A restart, a SIGHUP and the timer, then the end of the child.
abbrev stopping : Events
stopping = (1000, restart (bytes "new version")) ∷ ((2000, signalled sighup) ∷ ((9000, timer) ∷ []))

kills_after_grace_example : KillsAfterGrace [] (supervise_child stopping fresh).1.actions
kills_after_grace_example = kills_after_grace stopping

supervise_child_exit_example :
    let (result, s) = supervise_child (stopping ++ ((9500, exited no_error) ∷ [])) fresh in
    (result ≡ some no_error) × (forwarded s.actions ≡ received stopping)
supervise_child_exit_example = supervise_child_exit stopping [] 9500 no_error tt

supervise_child_escalates_example :
    SomeAction IsKill
      (supervise_child
        ((1000, signalled sigterm) ∷ (((2000, signalled sighup) ∷ []) ++ ((9000, timer) ∷ [])))
        fresh).1.actions
supervise_child_escalates_example =
    supervise_child_escalates 1000 9000 (signalled sigterm) ((2000, signalled sighup) ∷ []) [] fresh
      refl tt tt (ground arith)

abbrev app : Str
app = bytes "peatio"

abbrev secret : Str
secret = bytes "secret"

-- A service that has loaded version 4 of a scope whose row is at version 5.
abbrev behind : Service
behind = record {
  db = (record { app_name = app; scope = secret; value = some j_null; version = pos 5 }) ∷ [];
  ds = (app, (secret, (version_key, int64 (pos 4)) ∷ []) ∷ []) ∷ [];
  world = tt;
}

abbrev change : Change
change = record { app = app; scope = secret; current = pos 4; latest = pos 5 }

watch_secrets_sound_example :
    Among app (watched_apps (some (bytes "true")) (app ∷ []))
    × Among secret (secret ∷ [])
    × Seen storage change
unfolding watch_secrets check_apps check_scopes check_scope get_current_version get_latest_version
    kaigara.Base.str_eq scope_of Dict.lookup as_int64 int_eq
watch_secrets_sound_example =
    watch_secrets_sound storage (some (bytes "true")) 3 (app ∷ []) (secret ∷ []) behind change refl

check_apps_complete_example :
    (c : Change) × (check_apps storage (app ∷ []) (secret ∷ []) behind ≡ (ok (some c), behind))
unfolding check_scopes check_scope get_current_version get_latest_version scope_of Dict.lookup
    kaigara.Base.str_eq as_int64 int_eq
check_apps_complete_example =
    check_apps_complete storage app secret (app ∷ []) (secret ∷ []) (λ x. pos 4) (λ x. pos 5) behind
      (inl refl) (inl refl) (record { gives_current = refl; gives_latest = refl }, tt) refl
      ((some change, refl), tt)

-- A disk as a map from paths to contents.
abbrev disk : FileSystem
disk = record {
  Disk = Dict Str;
  mkdir_all = λ path d. (ok tt, d);
  write_file = λ path content d. (ok tt, Dict.insert path content d);
  dir = λ path. path;
}

disk-IsFileSystem : IsFileSystem disk
disk-IsFileSystem = record {
  content = λ path d. Dict.lookup path d;
  content-write_file = λ path c other d h. Dict.lookup-insert path other c d;
  content-mkdir_all = λ path other d. refl;
}

abbrev two_files : Dict File
two_files =
    (bytes "TLS", record { path = bytes "/etc/tls.pem"; content = bytes "certificate" })
    ∷ ((bytes "KEY", record { path = bytes "/etc/key.pem"; content = bytes "key" }) ∷ [])

write_files-Stands_example :
    All (Stands disk disk-IsFileSystem (write_files disk two_files []).1) two_files
unfolding write_files kaigara.Base.str_eq
write_files-Stands_example =
    write_files-Stands disk disk-IsFileSystem two_files [] ((refl, tt), (tt, tt)) refl
