-- ===== src/Commands/Kaienv.antt =====
-- cmd/kaienv/kaienv.go: prints the entries of the configured applications and scopes.
pub mod Lookup
use kaigara.Base.{Option, none, some, List, [], ◌∷◌, ◌++◌, Str, bytes, split, to_upper, to_lower}
use kaigara.Base.Dict
use kaigara.Base.Dict.{Dict}
use kaigara.Base.Exec.{Exec, pure, fail, ◌>>=◌, ◌>>◌, no_such_key}
use kaigara.Value.{Value, text}
use kaigara.Storage.Interface.{Storage}

-- env[envVariable] = envValue, for each entry
unfoldable pub merge : Dict (Option Value) → Dict (Option Value) → Dict (Option Value)
merge [] env = env
merge ((k, v) ∷ entries) env = merge entries (Dict.insert k v env)

module _ (S : Storage) where
  unfoldable pub read_scopes :
      Str → List Str → Dict (Option Value) → Exec S.State (Dict (Option Value))
  read_scopes app [] env = pure env
  read_scopes app (scope ∷ scopes) env = do
    S.read app scope
    entries ← S.get_entries app scope
    read_scopes app scopes (merge entries env)

  unfoldable pub read_apps :
      List Str → List Str → Dict (Option Value) → Exec S.State (Dict (Option Value))
  read_apps [] scopes env = pure env
  read_apps (app ∷ apps) scopes env = do
    env' ← read_scopes app scopes env
    read_apps apps scopes env'

  unfoldable pub read_all_env : Str → Str → Exec S.State (Dict (Option Value))
  read_all_env app_names scopes = read_apps (split b',' app_names) (split b',' scopes) []

-- What the command prints, with fmt's %v for a value that is no string.
module _ (S : Storage) (sprint : Option Value → Str) where
  -- envValueToString
  unfoldable pub env_value_to_string : Option Value → Str
  env_value_to_string (some (text s)) = bytes "\"" ++ (s ++ bytes "\"")
  env_value_to_string v = sprint v

  -- fmt.Fprint of a value: a string as it is.
  unfoldable pub print_value : Option Value → Str
  print_value (some (text s)) = s
  print_value v = sprint v

  unfoldable pub print_env : Dict (Option Value) → Str
  print_env [] = []
  print_env ((k, v) ∷ env) =
      to_upper k ++ (bytes "=" ++ (env_value_to_string v ++ (10 ∷ print_env env)))

  abbrev found_or_error : Str → Option (Option Value) → Exec S.State Str
  found_or_error variable none = fail (no_such_key variable)
  found_or_error variable (some v) = pure (print_value v)

  -- `params` are the arguments after the name of the program; the result is what is written to `out`.
  unfoldable pub kaienv_run : Str → Str → List Str → Exec S.State Str
  kaienv_run app_names scopes [] = do env ← read_all_env S app_names scopes; pure (print_env env)
  kaienv_run app_names scopes (variable ∷ params) = do
    env ← read_all_env S app_names scopes
    found_or_error variable (Dict.lookup (to_lower variable) env)
