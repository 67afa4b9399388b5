-- ===== src/Storage/Sql/Failed.antt =====
-- What a Write that fails leaves in the database.
use kaigara.Base.{◌≡◌, ◌≢◌, Str, arith, Option-cases, inl, inr}
use kaigara.Base.Dict
use kaigara.Base.Dict.{Dict}
use kaigara.Base.Exec.{ok}
use kaigara.Base.Int64.{ℤ, add_one}
use kaigara.Value.{int64}
use kaigara.Encryptor.{Encryptor}
use kaigara.Storage.Gorm.{Gorm, IsTable, Data, Found-cases}
use kaigara.Storage.Sql.{
  StorageService, version_key, as_int64, entries_of, data_of, put_scope, write, write_create,
  write_update,
}

module _ {G : Gorm} {E : Encryptor} (table : IsTable G) where
  create-unchanged :
      (app scope app' scope' : Str) (ver : ℤ) (s : StorageService G E)
      → (write_create app scope ver s).0 ≢ ok tt
      → G.first app' scope' (write_create app scope ver s).1.db ≡ G.first app' scope' s.db
  unfolding write_create
  create-unchanged app scope app' scope' ver s h =
      let d = data_of app scope (entries_of app scope s.ds) ver in
      elim (Option-cases (G.create d s.db).0) [
        | inl done ↦ ground arith
        | inr (m, refused) ↦ table.create_failed d s.db m refused app' scope'
      ]

  update-unchanged :
      (app scope app' scope' : Str) (old : Data) (s : StorageService G E)
      → (write_update app scope old s).0 ≢ ok tt
      → G.first app' scope' (write_update app scope old s).1.db ≡ G.first app' scope' s.db
  unfolding write_update put_scope
  update-unchanged app scope app' scope' old s h =
      let version = add_one old.version in
      let d =
        data_of app scope (Dict.insert version_key (int64 version) (entries_of app scope s.ds))
          version in
      elim (Option-cases (G.updates old d s.db).0) [
        | inl done ↦ ground arith
        | inr (m, refused) ↦ table.updates_failed old d s.db m refused app' scope'
      ]

  -- A Write that fails leaves every row of the database as it was, on a lawful table, whose
  -- refused queries change no row.
  pub write_failed :
      (app scope app' scope' : Str) (s : StorageService G E)
      → (write app scope s).0 ≢ ok tt
      → G.first app' scope' (write app scope s).1.db ≡ G.first app' scope' s.db
  unfolding write
  write_failed app scope app' scope' s h =
      elim (Option-cases (as_int64 (Dict.lookup version_key (entries_of app scope s.ds)))) [
        | inl e ↦ rw (e, write)
        | inr (ver, v) ↦ elim (Found-cases (G.first app scope s.db)) [
          | inl (m, e) ↦ rw (v, e, write)
          | inr (inl e) ↦
              let step : write app scope s ≡ write_create app scope ver s = rw (v, e, write) in
              rw step (create-unchanged app scope app' scope' ver s (rw step at h))
          | inr (inr (old, e)) ↦
              let step : write app scope s ≡ write_update app scope old s = rw (v, e, write) in
              rw step (update-unchanged app scope app' scope' old s (rw step at h))
        ]
      ]
