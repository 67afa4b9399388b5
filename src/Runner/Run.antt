-- ===== src/Runner/Run.antt =====
-- kaigaraRun of cmd/kaigara/kaigara.go, put together: the environment, the files, the child, and the two
-- goroutines that decide its end, watchSecrets and superviseChild, with the channel between them.
pub mod Selected
pub mod Rotation
pub mod Exit
use kaigara.Base.{
  ℕ, Bool, true, false, Option, none, some, List, [], ◌∷◌, ◌++◌, Str, bytes, split, if◌then◌else◌,
}
use kaigara.Base.Exec.{Exec, Outcome, ok, err, panic, pure, abort, focus, continue, ◌>>=◌, ◌>>◌}
use kaigara.Base.Int64.{ℤ}
use kaigara.Storage.Interface.{Storage}
use kaigara.Config.CmdEnv.{Env, build_cmd_env}
use kaigara.Runner.ExitCode.{WaitError, exit_code}
use kaigara.Runner.Supervise.{
  Signal, Event, exited, signalled, restart, timer, Supervisor, supervise_child, fresh,
}
use kaigara.Runner.Supervise.Delivery.{Events}
use kaigara.Runner.Watch.{Change, check_apps, watched_apps}
use kaigara.Runner.Launch.{FileSystem, Launcher, launch, parse_app_names, write_files}

-- What happens while the child runs: it ends, a signal comes in, the deadline passes, the ticker of the
-- watcher fires, the supervisor takes the message of the watcher, or another process changes the store.
pub data Happening (S : Storage) : Type 0 where
  ended : WaitError → Happening S
  signal : Signal → Happening S
  deadline tick deliver : Happening S
  elsewhere : (S.State → S.State) → Happening S

-- The watcher: whether it still polls, the channel `restart`, which holds one message, and the store.
pub record Watcher (S : Storage) : Type 0 where
  pub watching : Bool
  pub pending : Option Change
  pub store : S.State

-- parseScopes
unfoldable pub parse_scopes : Str → List Str
parse_scopes scopes = split b',' scopes

-- What superviseChild gets, with fmt's %v for a number.
module _ (S : Storage) (sprint : ℤ → Str) where
  unfoldable pub message : Change → Str
  message c =
      bytes "Secrets updated on "
      ++ (c.app
          ++ (bytes "."
              ++ (c.scope
                  ++ (bytes ": v" ++ (sprint c.current ++ (bytes " -> v" ++ sprint c.latest))))))

  -- One tick: the poll, and the message of a change, after which the watcher returns.
  unfoldable pub on_tick : List Str → List Str → Exec (Watcher S) (Unit {0})
  on_tick apps scopes w =
      let (r, store) = check_apps S apps scopes w.store in
      elim r [
        | ok none ↦ (ok tt, record w { store = store })
        | ok (some c) ↦ (ok tt, record { watching = false; pending = some c; store = store })
        | err e ↦ (err e, record w { store = store })
        | panic p ↦ (panic p, record w { store = store })
      ]

  unfoldable pub on_deliver : ℕ → Exec (Watcher S) Events
  unfolding message
  on_deliver now w = elim w.pending [
    | none ↦ (ok [], w)
    | some c ↦ (ok ((now, restart (message c)) ∷ []), record w { pending = none })
  ]

  abbrev prefix : Events → Exec (Watcher S) Events → Exec (Watcher S) Events
  prefix es rest = do more ← rest; pure (es ++ more)

  -- What superviseChild selects, in order; nothing after the end of the child.
  unfoldable pub selected : List Str → List Str → List (ℕ × Happening S) → Exec (Watcher S) Events
  unfolding on_tick on_deliver
  selected apps scopes [] = pure []
  selected apps scopes ((now, ended e) ∷ more) = pure ((now, exited e) ∷ [])
  selected apps scopes ((now, signal g) ∷ more) =
      prefix ((now, signalled g) ∷ []) (selected apps scopes more)
  selected apps scopes ((now, deadline) ∷ more) =
      prefix ((now, timer) ∷ []) (selected apps scopes more)
  selected apps scopes ((now, tick) ∷ more) = λ w.
      let rest = selected apps scopes more in
      (if w.watching then on_tick apps scopes >> rest else rest) w
  selected apps scopes ((now, deliver) ∷ more) = do
    es ← on_deliver now
    prefix es (selected apps scopes more)
  selected apps scopes ((now, elsewhere f) ∷ more) =
      λ w. selected apps scopes more (record w { store = f w.store })

  -- The child's life: what Wait reports in the end, none while it runs, and what was done to it.
  unfoldable pub run_child :
      List Str
      → List Str
      → List (ℕ × Happening S)
      → Exec (Watcher S) (Option WaitError × Supervisor)
  unfolding selected
  run_child apps scopes happenings = do
    events ← selected apps scopes happenings
    pure (supervise_child events fresh)

-- What kaigaraRun works on.
pub record Machine (S : Storage) (F : FileSystem) : Type 0 where
  pub store : S.State
  pub disk : F.Disk

module _ (S : Storage) (F : FileSystem) (sprint : ℤ → Str) (L : Launcher) where
  abbrev on_store : {A : Type 0} → Exec S.State A → Exec (Machine S F) A
  on_store = focus (λ m. m.store) (λ s m. record m { store = s })

  -- The poller's part of the store is that of the machine.
  abbrev watched : {A : Type 0} → Exec (Watcher S) A → Exec S.State A
  watched m s =
      let (r, w) = m (record { watching = true; pending = none; store = s }) in (r, w.store)

  abbrev code_of : Option WaitError → Option ℕ
  code_of none = none
  code_of (some e) = some (exit_code e)

  -- What log.Fatal reports ends the program with status 1.
  unfoldable pub run_started :
      Outcome (Unit {0})
      → List Str
      → List Str
      → List (ℕ × Happening S)
      → Exec (Machine S F) (Option ℕ)
  unfolding run_child
  run_started (ok _) apps scopes happenings = do
    (reported, supervisor) ← on_store (watched (run_child S sprint apps scopes happenings))
    pure (code_of reported)
  run_started (err e) apps scopes happenings = pure (some 1)
  run_started (panic p) apps scopes happenings = abort p

  -- The exit status, none while the child runs. `ignore` is the value of KAIGARA_IGNORE_GLOBAL.
  unfoldable pub kaigara_run :
      Str
      → Str
      → Option Str
      → List Str
      → Str
      → List Str
      → List (ℕ × Happening S)
      → Exec (Machine S F) (Option ℕ)
  unfolding run_started launch
  kaigara_run app_names scopes ignore environ cmd args happenings = do
    env ← on_store (build_cmd_env S (parse_app_names app_names) environ (parse_scopes scopes))
    focus (λ m. m.disk) (λ d m. record m { disk = d }) (write_files F env.files)
    run_started (launch L cmd args env.vars) (watched_apps ignore (parse_app_names app_names))
        (parse_scopes scopes) happenings
