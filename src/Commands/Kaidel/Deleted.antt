-- ===== src/Commands/Kaidel/Deleted.antt =====
-- kaidel on the SQL storage, end to end: what one run deletes, no other service gets.
use kaigara.Base.{◌≡◌, ap, ◌∙◌, subst, false, none, some, Str, arith, str_eq, str_eq_refl, inl, inr}
use kaigara.Base.Dict.{Dict}
use kaigara.Base.Exec.{Outcome-cases, ok}
use kaigara.Value.{Value}
use kaigara.Encryptor.{Encryptor}
use kaigara.Storage.Memory.{scope_of, scope_of-set_scope_self}
use kaigara.Storage.Gorm.{Gorm, IsTable, row, Found-cases}
use kaigara.Storage.Sql.{
  StorageService, sql_storage, version_key, put_scope, load_row, read, write, delete_entry,
  get_entry,
}
use kaigara.Storage.Sql.Delete.{
  get_missing, stored-delete_entry, db-delete_entry, delete_entry-eq-ok,
}
use kaigara.Storage.Sql.Saved.{NotMinusOne}
use kaigara.Storage.Sql.Persist.{read-write}
use kaigara.Storage.Sql.Frame.{db-read, stored-write}
use kaigara.Storage.Sql.Sealed.{Sealed-NodupKeys}
use kaigara.Storage.Sql.Steps.{IsSealed, entries_of-Sealed, read-IsSealed, delete_entry-IsSealed}
use kaigara.Storage.Sql.Runs.{write-IsSealed}
use kaigara.Commands.Kaidel.{delete_in_scope}

module _ {G : Gorm} {E : Encryptor} where
  -- A Read that succeeds leaves the scope loaded.
  read-loaded_lem :
      (app scope : Str) (s : StorageService G E)
      → (read app scope s).0 ≡ ok tt
      → (m : Dict Value) × (scope_of app scope (read app scope s).1.ds ≡ some m)
  unfolding read put_scope
  read-loaded_lem app scope s h = elim (Found-cases (G.first app scope s.db)) [
    | inl (m, e) ↦ ground arith
    | inr (inl e) ↦ rw (e, read) (_, scope_of-set_scope_self app scope _ _)
    | inr (inr (d, e)) ↦ elim (Outcome-cases (load_row d.value d.version)) [
      | inl (val, l) ↦ rw (e, l, read) (_, scope_of-set_scope_self app scope _ _)
      | inr l ↦ ground arith
    ]
  ]

  delete_in_scope-eq-ok :
      (app scope key : Str) (s : StorageService G E)
      → (delete_in_scope (sql_storage G E) app scope key s).0 ≡ ok tt
      → let u = (delete_entry app scope key (read app scope s).1).1 in
        ((write app scope u).0 ≡ ok tt)
        × ((delete_in_scope (sql_storage G E) app scope key s).1 ≡ (write app scope u).1)
  unfolding delete_in_scope
  delete_in_scope-eq-ok app scope key s h =
      let u = (delete_entry app scope key (read app scope s).1).1 in
      elim (Outcome-cases (read app scope s).0) [
        | inr e ↦ ground arith
        | inl (_, e) ↦
            let deleted = delete_entry-eq-ok app scope key (read app scope s).1 in
            elim (Outcome-cases (write app scope u).0) [
              | inr w ↦ ground arith
              | inl (_, w) ↦ (w, ground arith)
            ]
      ]

  -- After a run of kaidel over a scope that succeeds, any service on that database that reads the
  -- scope gets nil for the key, if it is not that of the version: on a lawful table, for a sealed
  -- service, and with no row of the scope at version -1.
  pub delete_in_scope-get_entry :
      (app scope key : Str) (s t : StorageService G E)
      → IsTable G
      → IsSealed s
      → NotMinusOne app scope s
      → str_eq version_key key ≡ false
      → (delete_in_scope (sql_storage G E) app scope key s).0 ≡ ok tt
      → t.db ≡ (delete_in_scope (sql_storage G E) app scope key s).1.db
      → (get_entry app scope key (read app scope t).1).0 ≡ ok none
  delete_in_scope-get_entry app scope key s t table sealed old ordinary h same =
      let loaded = (read app scope s).1 in
      let u = (delete_entry app scope key loaded).1 in
      let w = (write app scope u).1 in
      let (done, final) = delete_in_scope-eq-ok app scope key s h in
      let u_sealed =
        delete_entry-IsSealed app scope key loaded (read-IsSealed app scope s sealed) in
      let w_sealed = write-IsSealed table app scope u u_sealed in
      let u_db = db-delete_entry app scope key loaded ∙ db-read app scope s in
      let (succeeds, loads) =
        read-write table app scope u t
          (Sealed-NodupKeys E scope _ (entries_of-Sealed E app scope w.ds w_sealed.memory))
          (λ d e. old d (subst (λ db. G.first app scope db ≡ row d) u_db e)) done
          (same ∙ ap (λ (x : StorageService G E). x.db) final) in
      let (m, there) = read-loaded_lem app scope t succeeds in
      let gone =
        stored-write app scope key u ordinary
        ∙ rw (str_eq_refl app, str_eq_refl scope, str_eq_refl key) at
            (stored-delete_entry app scope key app scope key loaded) in
      get_missing app scope key m _ there (rw (ordinary, gone) at (loads key))
