-- ===== src/Storage/Sql.antt =====
-- pkg/storage/sql/sql.go: the SQL storage service, over gorm and an encryptor; Read and Write are those of
-- Storage/Rows.
pub mod Entries
pub mod SetGet
pub mod Holds
pub mod AllEntries
pub mod Delete
pub mod Refines
pub mod Total
pub mod Saved
pub mod Persist
pub mod Reread
pub mod Open
pub mod Frame
pub mod Failed
pub mod OtherRows
pub mod Sealed
pub mod Steps
pub mod Runs
use kaigara.Base.{
  Bool, true, false, not, ◌&&◌, ◌||◌, Option, none, some, List, [], ◌∷◌, Str, bytes, str_eq,
  if◌then◌else◌,
}
use kaigara.Base.Dict
use kaigara.Base.Dict.{Dict}
use kaigara.Base.Exec.{
  Exec, Outcome, ok, err, panic, pure, fail, abort, lift, focus, continue, ◌>>=◌, ◌>>◌, db_read,
  db_check, db_create, db_update, bad_json, not_a_string, scope_not_loaded, version_not_int64,
  nil_map,
}
use kaigara.Base.Int64.{ℤ, pos, add_one}
use kaigara.Value.{Value, text, int64, Json, j_object, j_null, marshal, unmarshal_into}
use kaigara.Encryptor.{Encryptor}
use kaigara.Storage.Interface.{Storage}
use kaigara.Storage.Memory.{scope_of, set_scope}
use kaigara.Storage.Gorm.{Data, Gorm, row, not_found, failed}
pub use kaigara.Storage.Rows.{StorageService, version_key, fresh_entries, data_of}
unfoldable pub use kaigara.Storage.Rows.{
  as_int64, load_row, entries_of, put_scope, make_scope, read, write_create, write_update, write,
}

abbrev pub secret_scope : Str
secret_scope = bytes "secret"

-- `scope == "secret" && name != "version"`
unfoldable pub is_encrypted : Str → Str → Bool
is_encrypted scope name = str_eq scope secret_scope && not (str_eq name version_key)

-- `value.(string)`, with a second result
unfoldable pub as_string : Value → Option Str
as_string (text s) = some s
as_string _ = none

abbrev version_or_zero : Outcome ℤ → Outcome ℤ
version_or_zero (ok ver) = ok ver
version_or_zero (err e) = ok (pos 0)
version_or_zero (panic p) = panic p

module _ {G : Gorm} {E : Encryptor} where
  unfoldable pub list_entries : Str → Str → Exec (StorageService G E) (List Str)
  list_entries app scope s = (ok (Dict.keys (entries_of app scope s.ds)), s)

  -- ds[app][scope][name] = value, which panics if the map was never made
  unfoldable pub assign : Str → Str → Str → Value → Exec (StorageService G E) (Unit {0})
  unfolding put_scope
  assign app scope name value s = elim (scope_of app scope s.ds) [
    | none ↦ (panic nil_map, s)
    | some m ↦ (ok tt, put_scope app scope (Dict.insert name value m) s)
  ]

  -- A call of the encryptor.
  abbrev pub with_encryptor : Exec E.World Str → Exec (StorageService G E) Str
  with_encryptor = focus (λ s. s.world) (λ w s. record s { world = w })

  unfoldable pub set_encrypted : Str → Str → Str → Option Str → Exec (StorageService G E) (Unit {0})
  unfolding assign
  set_encrypted app scope name none = fail (not_a_string name)
  set_encrypted app scope name (some str) = do
    encrypted ← with_encryptor (E.encrypt str app)
    assign app scope name (text encrypted)

  unfoldable pub set_entry : Str → Str → Str → Value → Exec (StorageService G E) (Unit {0})
  unfolding set_encrypted assign
  set_entry app scope name value =
      if is_encrypted scope name
      then set_encrypted app scope name (as_string value)
      else assign app scope name value

  -- `values` is in the order in which `range` visits the map.
  unfoldable pub set_entries : Str → Str → Dict Value → Exec (StorageService G E) (Unit {0})
  set_entries app scope [] = pure tt
  set_entries app scope ((k, v) ∷ values) = do set_entry app scope k v; set_entries app scope values

  unfoldable pub decrypt_entry : Str → Str → Option Value → Exec (StorageService G E) (Option Value)
  decrypt_entry app name none = pure none
  decrypt_entry app name (some raw) = elim (as_string raw) [
    | none ↦ fail (not_a_string name)
    | some str ↦ (do decrypted ← with_encryptor (E.decrypt str app); pure (some (text decrypted)))
  ]

  unfoldable pub get_entry : Str → Str → Str → Exec (StorageService G E) (Option Value)
  unfolding decrypt_entry
  get_entry app scope name s = elim (scope_of app scope s.ds) [
    | none ↦ (err scope_not_loaded, s)
    | some m ↦
        (if is_encrypted scope name
          then decrypt_entry app name (Dict.lookup name m) s
          else (ok (Dict.lookup name m), s))
  ]

  unfoldable pub get_names :
      Str → Str → List Str → Dict (Option Value) → Exec (StorageService G E) (Dict (Option Value))
  get_names app scope [] res = pure res
  get_names app scope (k ∷ ks) res = do
    val ← get_entry app scope k
    get_names app scope ks (Dict.insert k val res)

  unfoldable pub get_entries : Str → Str → Exec (StorageService G E) (Dict (Option Value))
  unfolding get_names
  get_entries app scope s = get_names app scope (Dict.keys (entries_of app scope s.ds)) [] s

  unfoldable pub delete_entry : Str → Str → Str → Exec (StorageService G E) (Unit {0})
  unfolding put_scope
  delete_entry app scope name s = elim (scope_of app scope s.ds) [
    | none ↦ (ok tt, s)
    | some m ↦ (ok tt, put_scope app scope (Dict.delete name m) s)
  ]

  unfoldable pub list_app_names : Exec (StorageService G E) (List Str)
  list_app_names s = (G.app_names s.db, s)

  unfoldable pub get_current_version : Str → Str → Exec (StorageService G E) ℤ
  get_current_version app scope s = elim (scope_of app scope s.ds) [
    | none ↦ (err scope_not_loaded, s)
    | some m ↦ elim (as_int64 (Dict.lookup version_key m)) [
      | none ↦ (err version_not_int64, s)
      | some ver ↦ (ok ver, s)
    ]
  ]

  unfoldable pub get_latest_version : Str → Str → Exec (StorageService G E) ℤ
  unfolding get_current_version
  get_latest_version app scope s = elim (G.first app scope s.db) [
    | failed m ↦ (err (db_check m), s)
    | not_found ↦ (version_or_zero (get_current_version app scope s).0, s)
    | row found ↦ (ok found.version, s)
  ]

abbrev pub sql_storage : Gorm → Encryptor → Storage
sql_storage G E = record {
  State = StorageService G E;
  read = read;
  write = write;
  set_entry = set_entry;
  set_entries = set_entries;
  get_entry = get_entry;
  get_entries = get_entries;
  list_entries = list_entries;
  delete_entry = delete_entry;
  list_app_names = list_app_names;
  get_current_version = get_current_version;
  get_latest_version = get_latest_version;
}
