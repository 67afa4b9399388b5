-- ===== src/Storage/Sql/Frame.antt =====
-- What Read and Write leave alone.
use kaigara.Base.{◌≡◌, refl, false, Str, arith, str_eq, Option-cases, inl, inr}
use kaigara.Base.Dict
use kaigara.Base.Dict.{Dict}
use kaigara.Base.Int64.{ℤ, add_one}
use kaigara.Value.{Value, int64}
use kaigara.Encryptor.{Encryptor}
use kaigara.Storage.Gorm.{Gorm, Data, Found-cases}
use kaigara.Storage.Sql.{
  StorageService, version_key, as_int64, entries_of, put_scope, make_scope, set_entry, read, write,
  write_create, write_update,
}
use kaigara.Storage.Sql.Entries.{stored, entries_of-set_scope_self}

module _ {G : Gorm} {E : Encryptor} where
  -- Read does not write to the database.
  pub db-read : (app scope : Str) (s : StorageService G E) → (read app scope s).1.db ≡ s.db
  unfolding read make_scope put_scope
  db-read app scope s = ground arith

  -- Nor does SetEntry.
  pub db-set_entry :
      (app scope name : Str) (v : Value) (s : StorageService G E)
      → (set_entry app scope name v s).1.db ≡ s.db
  unfolding set_entry
  db-set_entry app scope name v s = ground arith

  stored-update :
      (app scope k : Str) (old : Data) (s : StorageService G E)
      → str_eq version_key k ≡ false
      → stored app scope k (write_update app scope old s).1 ≡ stored app scope k s
  unfolding stored write_update put_scope
  stored-update app scope k old s h =
      let version = int64 (add_one old.version) in
      rw entries_of-set_scope_self
        (ground (arith, Dict.lookup-insert version_key k version (entries_of app scope s.ds)))

  stored-create :
      (app scope k : Str) (ver : ℤ) (s : StorageService G E)
      → stored app scope k (write_create app scope ver s).1 ≡ stored app scope k s
  unfolding stored write_create
  stored-create app scope k ver s = refl

  -- Write changes no entry in memory but the version.
  pub stored-write :
      (app scope k : Str) (s : StorageService G E)
      → str_eq version_key k ≡ false
      → stored app scope k (write app scope s).1 ≡ stored app scope k s
  unfolding write
  stored-write app scope k s h =
      elim (Option-cases (as_int64 (Dict.lookup version_key (entries_of app scope s.ds)))) [
        | inl e ↦ rw (e, write)
        | inr (ver, v) ↦ elim (Found-cases (G.first app scope s.db)) [
          | inl (m, e) ↦ rw (v, e, write)
          | inr (inl e) ↦ rw (v, e, write) (stored-create app scope k ver s)
          | inr (inr (old, e)) ↦ rw (v, e, write) (stored-update app scope k old s h)
        ]
      ]
