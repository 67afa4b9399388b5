-- ===== src/Storage/Rows.antt =====
-- pkg/storage/sql/sql.go: the StorageService, the rows it makes and loads, Read and Write.
use kaigara.Base.{Option, none, some, [], ◌∷◌, Str, bytes}
use kaigara.Base.Dict
use kaigara.Base.Dict.{Dict}
use kaigara.Base.Exec.{
  Exec, Outcome, ok, err, panic, db_read, db_check, db_create, db_update, bad_json,
  version_not_int64, nil_map,
}
use kaigara.Base.Int64.{ℤ, pos, add_one}
use kaigara.Value.{Value, int64, Json, j_object, j_null, marshal, unmarshal_into}
use kaigara.Encryptor.{Encryptor}
use kaigara.Storage.Memory.{scope_of, set_scope}
use kaigara.Storage.Gorm.{Data, Gorm, row, not_found, failed}

abbrev pub version_key : Str
version_key = bytes "version"

-- `ds[app][scope]["version"].(int64)`, with a second result
unfoldable pub as_int64 : Option Value → Option ℤ
as_int64 (some (int64 n)) = some n
as_int64 _ = none

-- StorageService: the connection, the loaded entries, and the world of the encryptor.
pub record StorageService (G : Gorm) (E : Encryptor) : Type 0 where
  pub db : G.Db
  pub ds : Dict (Dict (Dict Value))
  pub world : E.World

-- `val` before the row is unmarshalled into it
abbrev pub fresh_entries : Dict Value
fresh_entries = (version_key, int64 (pos 0)) ∷ []

-- json.Unmarshal into `val`, and the entry for the version. The document null makes the map nil,
-- and the assignment to it panics.
unfoldable pub load_row : Option Json → ℤ → Outcome (Dict Value)
load_row none version = err bad_json
load_row (some (j_object ms)) version =
    ok (Dict.insert version_key (int64 version) (unmarshal_into ms fresh_entries))
load_row (some j_null) version = panic nil_map
load_row (some _) version = err bad_json

abbrev db_error : Option Str → (Str → Outcome (Unit {0})) → Outcome (Unit {0})
db_error none f = ok tt
db_error (some m) f = f m

-- The row to write: the entries, marshalled.
abbrev pub data_of : Str → Str → Dict Value → ℤ → Data
data_of app scope val version = record {
  app_name = app;
  scope = scope;
  value = some (j_object (marshal val));
  version = version;
}

-- ds[app][scope], nil if it was never made
unfoldable pub entries_of : Str → Str → Dict (Dict (Dict Value)) → Dict Value
entries_of app scope ds = elim (scope_of app scope ds) [ none ↦ [] | some m ↦ m ]

module _ {G : Gorm} {E : Encryptor} where
  unfoldable pub put_scope : Str → Str → Dict Value → StorageService G E → StorageService G E
  put_scope app scope m s = record s { ds = set_scope app scope m s.ds }

  -- The three nil checks of Read: after them ds[app][scope] is a map.
  unfoldable pub make_scope : Str → Str → StorageService G E → StorageService G E
  unfolding put_scope
  make_scope app scope s = elim (scope_of app scope s.ds) [
    | none ↦ put_scope app scope [] s
    | some _ ↦ s
  ]

  unfoldable pub read : Str → Str → Exec (StorageService G E) (Unit {0})
  read app scope s =
      let s' = make_scope app scope s in
      elim (G.first app scope s.db) [
        | failed m ↦ (err (db_read m), s')
        | not_found ↦ (ok tt, put_scope app scope fresh_entries s')
        | row found ↦ elim (load_row found.value found.version) [
          | ok val ↦ (ok tt, put_scope app scope val s')
          | err e ↦ (err e, s')
          | panic p ↦ (panic p, s')
        ]
      ]

  -- The branches of Write on what is in the database. The new version is entered in memory before
  -- the row is updated.
  unfoldable pub write_create : Str → Str → ℤ → Exec (StorageService G E) (Unit {0})
  write_create app scope ver s =
      let (e, db') = G.create (data_of app scope (entries_of app scope s.ds) ver) s.db in
      (db_error e (λ m. err (db_create m)), record s { db = db' })

  unfoldable pub write_update : Str → Str → Data → Exec (StorageService G E) (Unit {0})
  write_update app scope old s =
      let version = add_one old.version in
      let val = Dict.insert version_key (int64 version) (entries_of app scope s.ds) in
      let (e, db') = G.updates old (data_of app scope val version) s.db in
      (db_error e (λ m. err (db_update m)), record (put_scope app scope val s) { db = db' })

  unfoldable pub write : Str → Str → Exec (StorageService G E) (Unit {0})
  write app scope s = elim (as_int64 (Dict.lookup version_key (entries_of app scope s.ds))) [
    | none ↦ (err version_not_int64, s)
    | some ver ↦ elim (G.first app scope s.db) [
      | failed m ↦ (err (db_check m), s)
      | not_found ↦ write_create app scope ver s
      | row old ↦ write_update app scope old s
    ]
  ]
