-- ===== src/Commands/Kaisave/Versioned.antt =====
-- kaisave on the SQL storage of a file that has an entry for the version, as the output of kaidump has.
use kaigara.Base.{◌≡◌, ◌≢◌, ap, ◌∙◌, false, none, some, Str, arith, str_eq_refl, inl, inr}
use kaigara.Base.Dict
use kaigara.Base.Dict.{Dict, NodupKeys}
use kaigara.Base.Exec.{ok}
use kaigara.Value.{Value}
use kaigara.Encryptor.{Encryptor}
use kaigara.Storage.Gorm.{Gorm}
use kaigara.Storage.Sql.{
  StorageService, sql_storage, version_key, is_encrypted, as_int64, read, write,
}
use kaigara.Storage.Sql.Entries.{stored}
use kaigara.Commands.Kaisave.{save_scope}
use kaigara.Commands.Kaisave.Sql.{saving, saving-Holds}
use kaigara.Commands.Kaisave.Published.{save_scope-eq-ok}

-- The version is never encrypted.
version_plain : (scope : Str) → is_encrypted scope version_key ≡ false
unfolding is_encrypted
version_plain scope = ground (arith, str_eq_refl version_key)

module _ {G : Gorm} {E : Encryptor} where
  write_unversioned :
      (app scope : Str) (v : Value) (s : StorageService G E)
      → stored app scope version_key s ≡ some v
      → as_int64 (some v) ≡ none
      → (write app scope s).0 ≢ ok tt
  unfolding write stored
  write_unversioned app scope v s is untyped h = ground (arith, (rw (← is) at untyped))

  -- Where a file, with no key twice, has an entry "version" for a scope that is no int64, as every
  -- number of a YAML file is none, kaisave does not succeed on that scope, whatever the database
  -- holds.
  pub save_scope_versioned :
      (app scope : Str) (v : Value) (entries : Dict Value) (s : StorageService G E)
      → NodupKeys entries
      → Dict.lookup version_key entries ≡ some v
      → as_int64 (some v) ≡ none
      → (save_scope (sql_storage G E) app scope entries s).0 ≢ ok tt
  save_scope_versioned app scope v entries s nodup found untyped h =
      let loaded = (read app scope s).1 in
      let (saved, done, final) = save_scope-eq-ok app scope entries s h in
      let u = (saving app scope entries loaded).1 in
      let held = saving-Holds app scope version_key v entries loaded nodup found saved in
      elim held.stands_for [
        | inl (plain, same) ↦
            write_unversioned app scope v u (held.is_stored ∙ ap some same) untyped done
        | inr (sealed, _, _, _, _, _, _) ↦ ground (arith, version_plain scope)
      ]
