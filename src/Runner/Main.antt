-- ===== src/Runner/Main.antt =====
-- The main function of cmd/kaigara/kaigara.go, and the time between two polls.
use kaigara.Base.{ℕ, ◌+◌, Option, List, [], ◌∷◌, Str, bytes}
use kaigara.Base.Exec.{Exec, abort, lift, must, focus, usage, ◌>>=◌, ◌>>◌}
use kaigara.Base.Int64.{ℤ}
use kaigara.Config.Service.{StorageKind}
use kaigara.Commands.Main.{Host, open_store}
use kaigara.Logs.Connect.{Redis, init_log_stream}
use kaigara.Runner.Launch.{FileSystem, Launcher}
use kaigara.Runner.Run.{Happening, kaigara_run}

-- pollBase and pollJitter, in nanoseconds
abbrev pub poll_base : ℕ
poll_base = 20000000000

abbrev pub poll_jitter : ℕ
poll_jitter = 10000000000

abbrev ignore_global : Str
ignore_global = bytes "KAIGARA_IGNORE_GLOBAL"

-- `random` is rand.Int63n.
unfoldable pub poll_interval : (ℕ → ℕ) → ℕ
poll_interval random = poll_base + random poll_jitter

-- The disk is a part of the machine; `variables` and `environ` are its environment, as os.LookupEnv and
-- os.Environ give it.
module _ (H : Host) (F : FileSystem) (disk : H.World → F.Disk)
    (with_disk : F.Disk → H.World → H.World) (R : Redis) (variables : Str → Option Str)
    (environ : List Str) (sprint : ℤ → Str) (L : Launcher) where
  -- The exit status; the arguments are those after the name of the program.
  unfoldable pub kaigara_main :
      List Str
      → ((kind : StorageKind) → List (ℕ × Happening (H.mount kind).storage))
      → Exec H.World (Option ℕ)
  unfolding init_log_stream open_store kaigara_run
  kaigara_main [] happenings = abort usage
  kaigara_main (cmd ∷ args) happenings = do
    must (lift (init_log_stream R variables tt).0)
    cnf ← must H.read_config
    kind ← open_store H cnf
    focus (λ w. record { store = (H.mount kind).get w; disk = disk w })
        (λ m w. with_disk m.disk ((H.mount kind).put m.store w))
        (kaigara_run (H.mount kind).storage F sprint L cnf.app_names cnf.scopes
          (variables ignore_global) environ cmd args (happenings kind))
