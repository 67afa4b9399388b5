-- ===== src/Commands/ReadOnly.antt =====
-- The commands that only read, on the SQL storage.
use kaigara.Base.{arith, ◌≡◌, refl, ◌∙◌, Option, List, [], ◌∷◌, Str, bytes, split}
use kaigara.Base.Dict.{Dict}
use kaigara.Base.Exec.{Exec, Outcome, ok, err, panic, must, continue, ◌>>=◌}
use kaigara.Value.{Value}
use kaigara.Encryptor.{Encryptor}
use kaigara.Storage.Gorm.{Gorm}
use kaigara.Storage.Sql.{StorageService, sql_storage, read, get_entries, list_app_names}
use kaigara.Storage.Sql.Frame.{db-read}
use kaigara.Storage.Sql.Steps.{get_entries-Unchanged}
use kaigara.Config.CmdEnv.{Env, add_scope, add_scopes, add_apps, build_cmd_env}
use kaigara.Commands.Kaidump.{Dump, dump_scopes, dump_apps, kaidump_run}
use kaigara.Commands.Kaienv.{read_scopes, read_apps, read_all_env, kaienv_run}

module _ (G : Gorm) (E : Encryptor) where
  abbrev pub Reading : Type 0 → Type 0
  Reading A = Exec (StorageService G E) A

  -- It leaves the database as it was.
  abbrev pub IsReadOnly : {A : Type 0} → Reading A → Type 0
  IsReadOnly m = (s : StorageService G E) → (m s).1.db ≡ s.db

  continue-IsReadOnly :
      {A B : Type 0} (r : Outcome A) (f : A → Reading B)
      → ((a : A) → IsReadOnly (f a))
      → IsReadOnly (continue r f)
  continue-IsReadOnly (ok a) f h s = h a s
  continue-IsReadOnly (err e) f h s = refl
  continue-IsReadOnly (panic p) f h s = refl

  bind-IsReadOnly :
      {A B : Type 0} (m : Reading A) (f : A → Reading B)
      → IsReadOnly m
      → ((a : A) → IsReadOnly (f a))
      → IsReadOnly (m >>= f)
  bind-IsReadOnly m f h k s = continue-IsReadOnly (m s).0 f k (m s).1 ∙ h s

  get_entries-IsReadOnly : (app scope : Str) → IsReadOnly (get_entries app scope)
  get_entries-IsReadOnly app scope s = (get_entries-Unchanged app scope s).1

  list_app_names-IsReadOnly : IsReadOnly list_app_names
  unfolding list_app_names
  list_app_names-IsReadOnly s = refl

  pub dump_scopes-IsReadOnly :
      (app : Str) (scopes : List Str) (scope_map : Dict (Dict (Option Value)))
      → IsReadOnly (dump_scopes (sql_storage G E) app scopes scope_map)
  unfolding dump_scopes
  dump_scopes-IsReadOnly app [] scope_map = λ s. refl
  dump_scopes-IsReadOnly app (scope ∷ scopes) scope_map =
      bind-IsReadOnly (must (read app scope)) _ (db-read app scope) λ _.
        bind-IsReadOnly (must (get_entries app scope)) _ (get_entries-IsReadOnly app scope)
          λ secrets. dump_scopes-IsReadOnly app scopes _

  dump_apps-IsReadOnly :
      (apps scopes : List Str) (app_map : Dump)
      → IsReadOnly (dump_apps (sql_storage G E) apps scopes app_map)
  unfolding dump_apps
  dump_apps-IsReadOnly [] scopes app_map = λ s. refl
  dump_apps-IsReadOnly (app ∷ apps) scopes app_map =
      bind-IsReadOnly (dump_scopes (sql_storage G E) app scopes []) _
        (dump_scopes-IsReadOnly app scopes []) λ m. dump_apps-IsReadOnly apps scopes _

  kaidump_run-IsReadOnly : (scopes : Str) → IsReadOnly (kaidump_run (sql_storage G E) scopes)
  unfolding kaidump_run
  kaidump_run-IsReadOnly scopes =
      bind-IsReadOnly (must list_app_names) _ list_app_names-IsReadOnly
        λ apps. dump_apps-IsReadOnly apps (split b',' scopes) []

  read_scopes-IsReadOnly :
      (app : Str) (scopes : List Str) (env : Dict (Option Value))
      → IsReadOnly (read_scopes (sql_storage G E) app scopes env)
  unfolding read_scopes
  read_scopes-IsReadOnly app [] env = λ s. refl
  read_scopes-IsReadOnly app (scope ∷ scopes) env =
      bind-IsReadOnly (read app scope) _ (db-read app scope) λ _.
        bind-IsReadOnly (get_entries app scope) _ (get_entries-IsReadOnly app scope)
          λ entries. read_scopes-IsReadOnly app scopes _

  read_apps-IsReadOnly :
      (apps scopes : List Str) (env : Dict (Option Value))
      → IsReadOnly (read_apps (sql_storage G E) apps scopes env)
  unfolding read_apps
  read_apps-IsReadOnly [] scopes env = λ s. refl
  read_apps-IsReadOnly (app ∷ apps) scopes env =
      bind-IsReadOnly (read_scopes (sql_storage G E) app scopes env) _
        (read_scopes-IsReadOnly app scopes env) λ env'. read_apps-IsReadOnly apps scopes env'

  pub add_scope-IsReadOnly :
      (app scope : Str) (env : Env) → IsReadOnly (add_scope (sql_storage G E) app scope env)
  unfolding add_scope
  add_scope-IsReadOnly app scope env =
      bind-IsReadOnly (must (read app scope)) _ (db-read app scope) λ _.
        bind-IsReadOnly (must (get_entries app scope)) _ (get_entries-IsReadOnly app scope)
          λ secrets s. refl

  pub add_scopes-IsReadOnly :
      (app : Str) (scopes : List Str) (env : Env)
      → IsReadOnly (add_scopes (sql_storage G E) app scopes env)
  unfolding add_scopes
  add_scopes-IsReadOnly app [] env = λ s. refl
  add_scopes-IsReadOnly app (scope ∷ scopes) env =
      bind-IsReadOnly (add_scope (sql_storage G E) app scope env) _
        (add_scope-IsReadOnly app scope env) (λ env'. add_scopes-IsReadOnly app scopes env')

  add_apps-IsReadOnly :
      (apps scopes : List Str) (env : Env) → IsReadOnly (add_apps (sql_storage G E) apps scopes env)
  unfolding add_apps
  add_apps-IsReadOnly [] scopes env = λ s. refl
  add_apps-IsReadOnly (app ∷ apps) scopes env =
      bind-IsReadOnly (add_scopes (sql_storage G E) app scopes env) _
        (add_scopes-IsReadOnly app scopes env) λ env'. add_apps-IsReadOnly apps scopes env'

  kaienv_run-IsReadOnly :
      (sprint : Option Value → Str) (app_names scopes : Str) (params : List Str)
      → IsReadOnly (kaienv_run (sql_storage G E) sprint app_names scopes params)
  unfolding kaienv_run read_all_env
  kaienv_run-IsReadOnly sprint app_names scopes [] =
      bind-IsReadOnly (read_all_env (sql_storage G E) app_names scopes) _
        (read_apps-IsReadOnly (split b',' app_names) (split b',' scopes) []) λ env s. refl
  kaienv_run-IsReadOnly sprint app_names scopes (variable ∷ params) =
      bind-IsReadOnly (read_all_env (sql_storage G E) app_names scopes) _
        (read_apps-IsReadOnly (split b',' app_names) (split b',' scopes) []) λ env s. ground arith

  -- Whatever they return, kaidump, kaienv and the making of the child's environment leave the database of
  -- an SQL storage as it was.
  pub db-readers :
      (scopes app_names : Str) (params apps current env_scopes : List Str)
      (sprint : Option Value → Str) (s : StorageService G E)
      → ((kaidump_run (sql_storage G E) scopes s).1.db ≡ s.db)
        × ((kaienv_run (sql_storage G E) sprint app_names scopes params s).1.db ≡ s.db)
        × ((build_cmd_env (sql_storage G E) apps current env_scopes s).1.db ≡ s.db)
  unfolding build_cmd_env
  db-readers scopes app_names params apps current env_scopes sprint s = (
    kaidump_run-IsReadOnly scopes s,
    kaienv_run-IsReadOnly sprint app_names scopes params s,
    add_apps-IsReadOnly (bytes "global" ∷ apps) env_scopes _ s,
  )
