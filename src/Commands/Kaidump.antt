-- ===== src/Commands/Kaidump.antt =====
-- kaidumpRun of cmd/kaidump/kaidump.go, up to the YAML encoding of its result.
pub mod Dumped
use kaigara.Base.{Option, List, [], ◌∷◌, Str, split}
use kaigara.Base.Dict
use kaigara.Base.Dict.{Dict}
use kaigara.Base.Exec.{Exec, pure, must, ◌>>=◌, ◌>>◌}
use kaigara.Value.{Value}
use kaigara.Storage.Interface.{Storage}

-- The entries by application, then by scope. The keys "secrets" and "scopes" of the YAML file are left
-- to its encoding.
abbrev pub Dump : Type 0
Dump = Dict (Dict (Dict (Option Value)))

module _ (S : Storage) where
  unfoldable pub dump_scopes :
      Str → List Str → Dict (Dict (Option Value)) → Exec S.State (Dict (Dict (Option Value)))
  dump_scopes app [] scope_map = pure scope_map
  dump_scopes app (scope ∷ scopes) scope_map = do
    must (S.read app scope)
    secrets ← must (S.get_entries app scope)
    dump_scopes app scopes (Dict.insert scope secrets scope_map)

  unfoldable pub dump_apps : List Str → List Str → Dump → Exec S.State Dump
  dump_apps [] scopes app_map = pure app_map
  dump_apps (app ∷ apps) scopes app_map = do
    scope_map ← dump_scopes app scopes []
    dump_apps apps scopes (Dict.insert app scope_map app_map)

  -- `scopes` is the configured list, separated by commas. Its parts are never none, so the check of
  -- their number never fails.
  unfoldable pub kaidump_run : Str → Exec S.State Dump
  kaidump_run scopes = do apps ← must S.list_app_names; dump_apps apps (split b',' scopes) []
