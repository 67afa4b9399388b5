-- ===== src/Commands/Kaisave/ToChild.antt =====
-- From the file of kaisave to the environment of the child, on the SQL storage.
use kaigara.Base.{
  ◌≡◌, ap, ◌∙◌, false, none, some, Option, List, [], ◌∷◌, Str, bytes, str_eq, arith, Among, inl,
  inr,
}
use kaigara.Base.Dict
use kaigara.Base.Dict.{Dict, NodupKeys}
use kaigara.Base.Exec.{Outcome-cases, ok, >>=-eq-ok}
use kaigara.Value.{text, Value, reload, to_json, of_json}
use kaigara.Encryptor.{Encryptor, IsFaithful}
use kaigara.Storage.Gorm.{Gorm, IsTable}
use kaigara.Storage.Sql.{StorageService, sql_storage, version_key, read, get_entries}
use kaigara.Storage.Sql.AllEntries.{get_entries-Holds}
use kaigara.Storage.Sql.Saved.{NotMinusOne}
use kaigara.Storage.Sql.Steps.{IsSealed}
use kaigara.Config.Kfile.{kfile_match}
use kaigara.Config.CmdEnv.{Env, add_entries, add_scope, add_scopes, add_apps, build_cmd_env}
use kaigara.Config.CmdEnv.Provides.{variable, add_entries-keeps, add_entries-provides}
use kaigara.Commands.ReadOnly.{add_scope-IsReadOnly, add_scopes-IsReadOnly}
use kaigara.Commands.Kaisave.{SecretsFile, save_all}
use kaigara.Commands.Kaisave.Published.{Publishes}
use kaigara.Commands.Kaisave.SaveAll.{save_all-Publishes}

module _ {G : Gorm} {E : Encryptor} where
  -- A scope that was added: it was read, and its entries were added.
  add_scope-eq-ok :
      (app scope : Str) (env after : Env) (s : StorageService G E)
      → (add_scope (sql_storage G E) app scope env s).0 ≡ ok after
      → (secrets : Dict (Option Value)) × ((get_entries app scope (read app scope s).1).0
          ≡ ok secrets)
        × (after ≡ add_entries secrets env)
  unfolding add_scope
  add_scope-eq-ok app scope env after s h = elim (Outcome-cases (read app scope s).0) [
    | inr e ↦ ground arith
    | inl (_, e) ↦ elim (Outcome-cases (get_entries app scope (read app scope s).1).0) [
      | inr f ↦ ground arith
      | inl (secrets, f) ↦ (secrets, f, ground arith)
    ]
  ]

  add_scopes-keeps :
      (v app : Str) (scopes : List Str) (env after : Env) (s : StorageService G E)
      → Among v env.vars
      → (add_scopes (sql_storage G E) app scopes env s).0 ≡ ok after
      → Among v after.vars
  unfolding add_scopes
  add_scopes-keeps v app [] env after s there h =
      let same : env ≡ after = ground arith in rw (← same) there
  add_scopes-keeps v app (scope ∷ scopes) env after s there h =
      let (next, done, rest) =
        >>=-eq-ok (add_scope (sql_storage G E) app scope env)
          (add_scopes (sql_storage G E) app scopes) s h in
      let (secrets, _, is) = add_scope-eq-ok app scope env next s done in
      add_scopes-keeps v app scopes next after _ (rw is (add_entries-keeps v secrets env there))
        rest

  add_apps-keeps :
      (v : Str) (apps scopes : List Str) (env after : Env) (s : StorageService G E)
      → Among v env.vars
      → (add_apps (sql_storage G E) apps scopes env s).0 ≡ ok after
      → Among v after.vars
  unfolding add_apps
  add_apps-keeps v [] scopes env after s there h =
      let same : env ≡ after = ground arith in rw (← same) there
  add_apps-keeps v (app ∷ apps) scopes env after s there h =
      let (next, done, rest) =
        >>=-eq-ok (add_scopes (sql_storage G E) app scopes env)
          (add_apps (sql_storage G E) apps scopes) s h in
      add_apps-keeps v apps scopes next after _
        (add_scopes-keeps v app scopes env next s there done) rest

  module _ (faithful : IsFaithful E) (app scope name p : Str) (u : StorageService G E)
      (published : Publishes app scope name (text p) u) (no_file : kfile_match name ≡ none) where
    add_scopes-provides :
        (scopes : List Str) (env after : Env) (s : StorageService G E)
        → s.db ≡ u.db
        → Among scope scopes
        → (add_scopes (sql_storage G E) app scopes env s).0 ≡ ok after
        → Among (variable name p) after.vars
    unfolding add_scopes
    add_scopes-provides [] env after s same among h = absurd among
    add_scopes-provides (k ∷ scopes) env after s same among h =
        let (next, done, rest) =
          >>=-eq-ok (add_scope (sql_storage G E) app k env)
            (add_scopes (sql_storage G E) app scopes) s h in
        let t = (add_scope (sql_storage G E) app k env s).1 in
        elim among [
          | inl is ↦
              let (secrets, got, added) = add_scope-eq-ok app scope env next s (rw is done) in
              let held = published s (ap (λ db. G.first app scope db) same) in
              let found = get_entries-Holds faithful app scope name (text p) secrets _ held got in
              add_scopes-keeps (variable name p) app scopes next after t
                (rw added (add_entries-provides name p secrets env no_file found)) rest
          | inr later ↦
              add_scopes-provides scopes next after t (add_scope-IsReadOnly G E app k env s ∙ same)
                later rest
        ]

    add_apps-provides :
        (apps scopes : List Str) (env after : Env) (s : StorageService G E)
        → s.db ≡ u.db
        → Among app apps
        → Among scope scopes
        → (add_apps (sql_storage G E) apps scopes env s).0 ≡ ok after
        → Among (variable name p) after.vars
    unfolding add_apps
    add_apps-provides [] scopes env after s same among here h = absurd among
    add_apps-provides (a ∷ apps) scopes env after s same among here h =
        let (next, done, rest) =
          >>=-eq-ok (add_scopes (sql_storage G E) a scopes env)
            (add_apps (sql_storage G E) apps scopes) s h in
        let t = (add_scopes (sql_storage G E) a scopes env s).1 in
        elim among [
          | inl is ↦
              add_apps-keeps (variable name p) apps scopes next after t
                (add_scopes-provides scopes env next s same here (rw is done)) rest
          | inr later ↦
              add_apps-provides apps scopes next after t
                (add_scopes-IsReadOnly G E a scopes env s ∙ same) later here rest
        ]

  -- Once kaisave has saved a file with nothing twice (faithful encryptor, lawful table, sealed service, row
  -- of the scope not at version -1), an environment built on that database from the scope, for the
  -- application or global, has NAME=text for each text, but the version, whose name names no file.
  pub build_cmd_env-save_all :
      (app scope name p : Str) (file : SecretsFile) (scopes : Dict (Dict Value))
      (entries : Dict Value) (apps current env_scopes : List Str) (env : Env)
      (s t : StorageService G E)
      → IsTable G
      → IsFaithful E
      → IsSealed s
      → NotMinusOne app scope s
      → NodupKeys file × NodupKeys scopes × NodupKeys entries
      → Dict.lookup app file ≡ some scopes
      → Dict.lookup scope scopes ≡ some entries
      → Dict.lookup name entries ≡ some (text p)
      → str_eq version_key name ≡ false
      → (save_all (sql_storage G E) file s).0 ≡ ok tt
      → t.db ≡ (save_all (sql_storage G E) file s).1.db
      → kfile_match name ≡ none
      → Among app (bytes "global" ∷ apps)
      → Among scope env_scopes
      → (build_cmd_env (sql_storage G E) apps current env_scopes t).0 ≡ ok env
      → Among (variable name p) env.vars
  unfolding build_cmd_env reload to_json of_json
  build_cmd_env-save_all app scope name p file scopes entries apps current env_scopes env s t table
        faithful sealed old nodup in_file here found ordinary h last no_file asked read_scope
        built =
      let u = (save_all (sql_storage G E) file s).1 in
      let published : Publishes app scope name (text p) u =
        save_all-Publishes table app scope name (text p) file scopes entries s sealed old nodup
          in_file here found ordinary h in
      add_apps-provides faithful app scope name p u published no_file (bytes "global" ∷ apps)
        env_scopes _ env t last asked read_scope built
