-- ===== src/Storage/Sql/OtherRows.antt =====
-- A Write and the rows of other scopes.
use kaigara.Base.{◌≡◌, ◌∙◌, false, ◌&&◌, str_eq, Str, Option-cases, inl, inr}
use kaigara.Base.Dict
use kaigara.Base.Dict.{Dict}
use kaigara.Base.Int64.{ℤ, add_one}
use kaigara.Value.{int64}
use kaigara.Encryptor.{Encryptor}
use kaigara.Storage.Gorm.{Gorm, IsTable, Data, Found-cases, not_found, row}
use kaigara.Storage.Sql.{
  StorageService, version_key, as_int64, entries_of, data_of, put_scope, write, write_create,
  write_update,
}

module _ {G : Gorm} {E : Encryptor} (table : IsTable G) where
  create-other :
      (app scope app' scope' : Str) (ver : ℤ) (s : StorageService G E)
      → G.first app scope s.db ≡ not_found
      → str_eq app app' && str_eq scope scope' ≡ false
      → G.first app' scope' (write_create app scope ver s).1.db ≡ G.first app' scope' s.db
  unfolding write_create
  create-other app scope app' scope' ver s e other =
      let d = data_of app scope (entries_of app scope s.ds) ver in
      elim (Option-cases (G.create d s.db).0) [
        | inl done ↦ table.first-create d s.db e done app' scope' ∙ rw other
        | inr (m, refused) ↦ table.create_failed d s.db m refused app' scope'
      ]

  update-other :
      (app scope app' scope' : Str) (old : Data) (s : StorageService G E)
      → G.first app scope s.db ≡ row old
      → str_eq app app' && str_eq scope scope' ≡ false
      → G.first app' scope' (write_update app scope old s).1.db ≡ G.first app' scope' s.db
  unfolding write_update put_scope
  update-other app scope app' scope' old s e other =
      let version = add_one old.version in
      let d =
        data_of app scope (Dict.insert version_key (int64 version) (entries_of app scope s.ds))
          version in
      elim (Option-cases (G.updates old d s.db).0) [
        | inl done ↦ table.first-updates old d s.db e done app' scope' ∙ rw other
        | inr (m, refused) ↦ table.updates_failed old d s.db m refused app' scope'
      ]

  -- Write changes the row of its own application and scope at most.
  pub first-write :
      (app scope app' scope' : Str) (s : StorageService G E)
      → str_eq app app' && str_eq scope scope' ≡ false
      → G.first app' scope' (write app scope s).1.db ≡ G.first app' scope' s.db
  unfolding write
  first-write app scope app' scope' s other =
      elim (Option-cases (as_int64 (Dict.lookup version_key (entries_of app scope s.ds)))) [
        | inl e ↦ rw (e, write)
        | inr (ver, v) ↦ elim (Found-cases (G.first app scope s.db)) [
          | inl (m, e) ↦ rw (v, e, write)
          | inr (inl e) ↦ rw (v, e, write) (create-other app scope app' scope' ver s e other)
          | inr (inr (old, e)) ↦ rw (v, e, write) (update-other app scope app' scope' old s e other)
        ]
      ]
