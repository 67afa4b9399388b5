-- ===== src/Commands/Kaisave/Kept.antt =====
-- cmd/kaisave/kaisave.go: a run over a scope, the scopes of an application or a whole file, step by
-- step, and the rows that it leaves alone.
use kaigara.Base.{◌≡◌, refl, ap, ◌∙◌, false, ◌&&◌, none, [], ◌∷◌, Str, arith, str_eq, inl, ◌⊎◌}
use kaigara.Base.Dict
use kaigara.Base.Dict.{Dict, NodupKeys}
use kaigara.Base.Exec.{ok, >>=-eq-ok, >>=_of_ok}
use kaigara.Value.{Value}
use kaigara.Encryptor.{Encryptor}
use kaigara.Storage.Gorm.{Gorm, IsTable}
use kaigara.Storage.Sql.{StorageService, sql_storage, read}
use kaigara.Storage.Sql.Frame.{db-read}
use kaigara.Storage.Sql.OtherRows.{first-write}
use kaigara.Storage.Sql.Steps.{IsSealed, read-IsSealed}
use kaigara.Storage.Sql.Runs.{write-IsSealed}
use kaigara.Commands.Kaisave.{SecretsFile, save_scope, save_scopes, save_all}
use kaigara.Commands.Kaisave.Sql.{saving}
use kaigara.Commands.Kaisave.Published.{save_scope-eq-ok, saving-keeps}

module _ {G : Gorm} {E : Encryptor} where
  abbrev pub saving_scope : Str → Str → Dict Value → StorageService G E → StorageService G E
  saving_scope app scope entries s = (save_scope (sql_storage G E) app scope entries s).1

  abbrev pub saving_scopes : Str → Dict (Dict Value) → StorageService G E → StorageService G E
  saving_scopes app scopes s = (save_scopes (sql_storage G E) app scopes s).1

  abbrev pub saving_all : SecretsFile → StorageService G E → StorageService G E
  saving_all file s = (save_all (sql_storage G E) file s).1

module _ {G : Gorm} {E : Encryptor} (table : IsTable G) where
  -- A run over a scope keeps the service sealed, and changes no row but its own.
  pub save_scope-keeps :
      (app scope : Str) (entries : Dict Value) (s : StorageService G E)
      → IsSealed s
      → (save_scope (sql_storage G E) app scope entries s).0 ≡ ok tt
      → IsSealed (saving_scope app scope entries s)
        × ((app' scope' : Str)
            → str_eq app app' && str_eq scope scope' ≡ false
            → G.first app' scope' (saving_scope app scope entries s).db ≡ G.first app' scope' s.db)
  save_scope-keeps app scope entries s sealed h =
      let loaded = (read app scope s).1 in
      let (saved, written, final) = save_scope-eq-ok app scope entries s h in
      let u = (saving app scope entries loaded).1 in
      let (u_sealed, u_db) =
        saving-keeps app scope entries loaded saved (read-IsSealed app scope s sealed) in
      rw final (
        write-IsSealed table app scope u u_sealed,
        λ app' scope' other.
            first-write table app scope app' scope' u other
            ∙ ap (λ db. G.first app' scope' db) (u_db ∙ db-read app scope s),
      )

  pub save_scopes-cons :
      (app scope : Str) (entries : Dict Value) (scopes : Dict (Dict Value)) (s : StorageService G E)
      → (save_scopes (sql_storage G E) app ((scope, entries) ∷ scopes) s).0 ≡ ok tt
      → ((save_scope (sql_storage G E) app scope entries s).0 ≡ ok tt)
        × (save_scopes (sql_storage G E) app ((scope, entries) ∷ scopes) s
            ≡ save_scopes (sql_storage G E) app scopes (saving_scope app scope entries s))
  unfolding save_scopes
  save_scopes-cons app scope entries scopes s h =
      let first = save_scope (sql_storage G E) app scope entries in
      let (_, done, _) = >>=-eq-ok first _ s h in (done, >>=_of_ok first _ s done)

  pub save_scopes-keeps :
      (app : Str) (scopes : Dict (Dict Value)) (s : StorageService G E)
      → IsSealed s
      → (save_scopes (sql_storage G E) app scopes s).0 ≡ ok tt
      → IsSealed (saving_scopes app scopes s)
        × ((app' scope' : Str)
            → (str_eq app app' ≡ false) ⊎ (Dict.lookup scope' scopes ≡ none)
            → G.first app' scope' (saving_scopes app scopes s).db ≡ G.first app' scope' s.db)
  unfolding Dict.lookup
  save_scopes-keeps app [] s sealed h = unfold save_scopes in (sealed, λ app' scope' other. refl)
  save_scopes-keeps app ((scope, entries) ∷ scopes) s sealed h =
      let (done, step) = save_scopes-cons app scope entries scopes s h in
      let (one, kept) = save_scope-keeps app scope entries s sealed done in
      let (rest, same) =
        save_scopes-keeps app scopes (saving_scope app scope entries s) one (rw step at h) in
      rw (saving_scopes, step)
        (
          rest,
          λ app' scope' other.
              let apart : str_eq app app' && str_eq scope scope' ≡ false = ground arith in
              let after : (str_eq app app' ≡ false) ⊎ (Dict.lookup scope' scopes ≡ none) =
                ground arith in
              same app' scope' after ∙ kept app' scope' apart,
        )

  pub save_all-cons :
      (app : Str) (scopes : Dict (Dict Value)) (file : SecretsFile) (s : StorageService G E)
      → (save_all (sql_storage G E) ((app, scopes) ∷ file) s).0 ≡ ok tt
      → ((save_scopes (sql_storage G E) app scopes s).0 ≡ ok tt)
        × (save_all (sql_storage G E) ((app, scopes) ∷ file) s
            ≡ save_all (sql_storage G E) file (saving_scopes app scopes s))
  unfolding save_all
  save_all-cons app scopes file s h =
      let first = save_scopes (sql_storage G E) app scopes in
      let (_, done, _) = >>=-eq-ok first _ s h in (done, >>=_of_ok first _ s done)

  -- The applications of a file that does not name one leave its rows.
  pub save_all-keeps :
      (file : SecretsFile) (app scope : Str) (s : StorageService G E)
      → IsSealed s
      → Dict.lookup app file ≡ none
      → (save_all (sql_storage G E) file s).0 ≡ ok tt
      → G.first app scope (save_all (sql_storage G E) file s).1.db ≡ G.first app scope s.db
  unfolding Dict.lookup
  save_all-keeps [] app scope s sealed absent h = unfold save_all in refl
  save_all-keeps ((a, scopes) ∷ file) app scope s sealed absent h =
      let (done, step) = save_all-cons a scopes file s h in
      let (rest, same) = save_scopes-keeps a scopes s sealed done in
      let differ : str_eq a app ≡ false = ground arith in
      rw step (
        save_all-keeps file app scope (saving_scopes a scopes s) rest (ground arith) (rw step at h)
        ∙ same app scope (inl differ))
