-- ===== src/Storage/Sql/Delete.antt =====
-- DeleteEntry, and the entries that are missing.
use kaigara.Base.{
  ◌≡◌, ◌&&◌, Option, none, some, Str, arith, str_eq, str_eq_iff, if◌then◌else◌, Option-cases, inl,
  inr,
}
use kaigara.Base.Dict
use kaigara.Base.Dict.{Dict}
use kaigara.Base.Exec.{ok}
use kaigara.Value.{Value}
use kaigara.Encryptor.{Encryptor}
use kaigara.Storage.Memory.{scope_of, scope_of-set_scope}
use kaigara.Storage.Gorm.{Gorm}
use kaigara.Storage.Sql.{
  StorageService, entries_of, put_scope, delete_entry, get_entry, decrypt_entry,
}
use kaigara.Storage.Sql.Entries.{stored}

module _ {G : Gorm} {E : Encryptor} where
  pub get_missing :
      (app scope name : Str) (m : Dict Value) (s : StorageService G E)
      → scope_of app scope s.ds ≡ some m
      → stored app scope name s ≡ none
      → (get_entry app scope name s).0 ≡ ok none
  unfolding get_entry stored entries_of decrypt_entry
  get_missing app scope name m s e missing = ground arith

  -- What GetEntry returns for an entry that is missing, if it returns.
  pub get_entry_of_missing :
      (app scope name : Str) (answer : Option Value) (s : StorageService G E)
      → stored app scope name s ≡ none
      → (get_entry app scope name s).0 ≡ ok answer
      → answer ≡ none
  unfolding get_entry stored entries_of decrypt_entry
  get_entry_of_missing app scope name answer s missing h = ground arith

  pub stored-delete_entry :
      (app scope name app' scope' name' : Str) (s : StorageService G E)
      → stored app' scope' name' (delete_entry app scope name s).1 ≡ (
          if str_eq app app' && (str_eq scope scope' && str_eq name name')
          then none
          else stored app' scope' name' s)
  unfolding stored delete_entry entries_of put_scope Dict.lookup
  stored-delete_entry app scope name app' scope' name' s =
      elim (Option-cases (scope_of app scope s.ds)) [
        | inl e ↦ ground (arith, str_eq_iff app app', str_eq_iff scope scope')
        | inr (m, e) ↦ ground (
          arith,
          scope_of-set_scope app scope app' scope' (Dict.delete name m) s.ds,
          Dict.lookup-delete name name' m,
          str_eq_iff app app',
          str_eq_iff scope scope',
        )
      ]

  pub db-delete_entry :
      (app scope name : Str) (s : StorageService G E) → (delete_entry app scope name s).1.db ≡ s.db
  unfolding delete_entry put_scope
  db-delete_entry app scope name s = ground arith

  pub delete_entry-eq-ok :
      (app scope name : Str) (s : StorageService G E) → (delete_entry app scope name s).0 ≡ ok tt
  unfolding delete_entry
  delete_entry-eq-ok app scope name s = ground arith
