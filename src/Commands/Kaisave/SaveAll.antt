-- ===== src/Commands/Kaisave/SaveAll.antt =====
-- A whole run of kaisave on the SQL storage: each entry of the file, for every other service.
use kaigara.Base.{
  ◌≡◌, ap, ◌∙◌, false, ◌&&◌, none, some, [], ◌∷◌, Str, arith, str_eq, str_eq_iff, Bool-cases, inl,
  inr, subst, sym,
}
use kaigara.Base.Dict
use kaigara.Base.Dict.{Dict, NodupKeys}
use kaigara.Base.Exec.{ok}
use kaigara.Value.{Value, reload}
use kaigara.Encryptor.{Encryptor, IsFaithful}
use kaigara.Storage.Gorm.{Gorm, IsTable}
use kaigara.Storage.Sql.{StorageService, sql_storage, version_key, read, get_entry}
use kaigara.Storage.Sql.Saved.{NotMinusOne}
use kaigara.Storage.Sql.Steps.{IsSealed}
use kaigara.Commands.Kaisave.{SecretsFile, save_scopes, save_all}
use kaigara.Storage.Sql.Holds.{get_entry-Holds}
use kaigara.Commands.Kaisave.Published.{Publishes, save_scope-Publishes}
use kaigara.Commands.Kaisave.Kept.{
  saving_scope, saving_scopes, saving_all, save_scope-keeps, save_scopes-cons, save_scopes-keeps,
  save_all-cons, save_all-keeps,
}

module _ {G : Gorm} {E : Encryptor} (table : IsTable G) where
  NotMinusOne-same :
      (app scope : Str) (s t : StorageService G E)
      → G.first app scope t.db ≡ G.first app scope s.db
      → NotMinusOne app scope s
      → NotMinusOne app scope t
  NotMinusOne-same app scope s t same old d e = old d (sym same ∙ e)

  Publishes-same :
      (app scope name : Str) (v : Value) (s t : StorageService G E)
      → G.first app scope t.db ≡ G.first app scope s.db
      → Publishes app scope name v s
      → Publishes app scope name v t
  Publishes-same app scope name v s t same h u e = h u (e ∙ same)

  save_scopes-Publishes :
      (app scope name : Str) (v : Value) (scopes : Dict (Dict Value)) (entries : Dict Value)
      (s : StorageService G E)
      → IsSealed s
      → NotMinusOne app scope s
      → NodupKeys scopes
      → NodupKeys entries
      → Dict.lookup scope scopes ≡ some entries
      → Dict.lookup name entries ≡ some v
      → str_eq version_key name ≡ false
      → (save_scopes (sql_storage G E) app scopes s).0 ≡ ok tt
      → Publishes app scope name (reload v) (saving_scopes app scopes s)
  unfolding Dict.lookup
  save_scopes-Publishes app scope name v [] entries s sealed old nodup nodup' here found ordinary
        h =
      ground arith
  save_scopes-Publishes app scope name v ((k, es) ∷ scopes) entries s sealed old nodup nodup' here
        found ordinary h =
      let (done, step) = save_scopes-cons table app k es scopes s h in
      let t = saving_scope app k es s in
      let (t_sealed, kept) = save_scope-keeps table app k es s sealed done in
      let (_, same) = save_scopes-keeps table app scopes t t_sealed (rw step at h) in
      elim (Bool-cases (str_eq k scope)) [
        | inl e ↦
            let key : k ≡ scope = (str_eq_iff k scope).0 e in
            let is : es ≡ entries = ground arith in
            let absent : Dict.lookup scope scopes ≡ none = rw (← key) nodup.0 in
            let published : Publishes app k name (reload v) t =
              save_scope-Publishes app k name v es s table sealed (rw key old) (rw is nodup')
                (ap (Dict.lookup name) is ∙ found) ordinary done in
            rw (saving_scopes, step)
              (Publishes-same app scope name (reload v) t (saving_scopes app scopes t)
                (same app scope (inr absent))
                (subst (λ x. Publishes app x name (reload v) t) key published))
        | inr e ↦
            let apart : str_eq app app && str_eq k scope ≡ false = ground arith in
            rw (saving_scopes, step)
              (save_scopes-Publishes app scope name v scopes entries t t_sealed
                (NotMinusOne-same app scope s t (kept app scope apart) old) nodup.1 nodup'
                (ground arith) found ordinary (rw step at h))
      ]

  pub save_all-Publishes :
      (app scope name : Str) (v : Value) (file : SecretsFile) (scopes : Dict (Dict Value))
      (entries : Dict Value) (s : StorageService G E)
      → IsSealed s
      → NotMinusOne app scope s
      → NodupKeys file × NodupKeys scopes × NodupKeys entries
      → Dict.lookup app file ≡ some scopes
      → Dict.lookup scope scopes ≡ some entries
      → Dict.lookup name entries ≡ some v
      → str_eq version_key name ≡ false
      → (save_all (sql_storage G E) file s).0 ≡ ok tt
      → Publishes app scope name (reload v) (saving_all file s)
  unfolding Dict.lookup
  save_all-Publishes app scope name v [] scopes entries s sealed old nodup in_file here found
        ordinary h =
      ground arith
  save_all-Publishes app scope name v ((a, sc) ∷ file) scopes entries s sealed old
        ((absent, file_once), scopes_once, once) in_file here found ordinary h =
      let (done, step) = save_all-cons table a sc file s h in
      let u = saving_scopes a sc s in
      let (u_sealed, kept) = save_scopes-keeps table a sc s sealed done in
      elim (Bool-cases (str_eq a app)) [
        | inl e ↦
            let key : a ≡ app = (str_eq_iff a app).0 e in
            let is : sc ≡ scopes = ground arith in
            let published : Publishes a scope name (reload v) u =
              save_scopes-Publishes a scope name v sc entries s sealed (rw key old)
                (rw is scopes_once) once (ap (Dict.lookup scope) is ∙ here) found ordinary done in
            rw (saving_all, step)
              (Publishes-same app scope name (reload v) u (saving_all file u)
                (save_all-keeps table file app scope u u_sealed (rw (← key) absent) (rw step at h))
                (subst (λ x. Publishes x scope name (reload v) u) key published))
        | inr e ↦
            rw (saving_all, step)
              (save_all-Publishes app scope name v file scopes entries u u_sealed
                (NotMinusOne-same app scope s u (kept app scope (inl e)) old)
                (file_once, scopes_once, once) (ground arith) here found ordinary (rw step at h))
      ]

  module _ (faithful : IsFaithful E) where
    -- After a run of kaisave that succeeds, any service on that database that reads a scope of the file
    -- gets each of its entries but the version, up to one pass through JSON: with a faithful encryptor, a
    -- lawful table, a sealed service, the row of the scope not at version -1, and nothing twice in the file.
    pub save_all-get_entry :
        (app scope name : Str) (v : Value) (file : SecretsFile) (scopes : Dict (Dict Value))
        (entries : Dict Value) (s t : StorageService G E)
        → IsSealed s
        → NotMinusOne app scope s
        → NodupKeys file × NodupKeys scopes × NodupKeys entries
        → Dict.lookup app file ≡ some scopes
        → Dict.lookup scope scopes ≡ some entries
        → Dict.lookup name entries ≡ some v
        → str_eq version_key name ≡ false
        → (save_all (sql_storage G E) file s).0 ≡ ok tt
        → t.db ≡ (save_all (sql_storage G E) file s).1.db
        → (get_entry app scope name (read app scope t).1).0 ≡ ok (some (reload v))
    save_all-get_entry app scope name v file scopes entries s t sealed old nodup in_file here found
          ordinary h last =
        get_entry-Holds app scope name (reload v) _ faithful (
          save_all-Publishes app scope name v file scopes entries s sealed old nodup in_file here
            found ordinary h t (ap (λ db. G.first app scope db) last))
