-- ===== src/Tests/Runs.antt =====
-- The theorems on the commands, the choice of the storage and the relay of output, applied.
use kaigara.Commands.SetupStore.{set_missing}
use kaigara.Storage.Memory.{app_of}
use kaigara.Value.{of_json, unmarshal_into}
use kaigara.Base.{sym, ◌∙◌, lower_byte}
use kaigara.Commands.Kaienv.{merge, read_apps, read_scopes}
use kaigara.Storage.Sql.{
  as_string, decrypt_entry, delete_entry, entries_of, get_names, is_encrypted, load_row, make_scope,
  put_scope, write_create,
}
use kaigara.Base.{
  to_lower, split, inl, inr, ◌≡◌, ◌≢◌, refl, Bool, true, false, none, some, List, [], ◌∷◌, Str,
  bytes, str_eq, arith,
}
use kaigara.Base.Dict
use kaigara.Value.{reload}
use kaigara.Config.CmdEnv.{entry_text, build_cmd_env}
use kaigara.Config.CmdEnv.Reloaded.{survives, entry_text-reload}
use kaigara.Commands.Kaidump.{kaidump_run}
use kaigara.Commands.ReadOnly.{db-readers}
use kaigara.Encryptor.Plaintext.{plaintext_encryptor}
use kaigara.Storage.Gorm.{Gorm, IsTable, not_found}
use kaigara.Storage.Sql.{StorageService, write_create, entries_of}
use kaigara.Storage.Sql.Failed.{write_failed}
use kaigara.Tests.{table}
use kaigara.Base.Dict.{Dict}
use kaigara.Base.Exec.{Error, db_create, ok, err, no_such_key}
use kaigara.Base.Int64.{pos}
use kaigara.Value.{text, int, int64, j_object, member, no_member, j_text}
use kaigara.Storage.Memory.{scope_of, set_scope}
use kaigara.Storage.Sql.{as_int64, version_key, read, write, get_entry, get_entries}
use kaigara.Storage.Sql.Entries.{stored}
use kaigara.Commands.Kaisave.{save_scope}
use kaigara.Commands.Kaisave.Versioned.{save_scope_versioned}
use kaigara.Commands.Kaidel.{delete_in_scope}
use kaigara.Commands.Kaidel.Deleted.{delete_in_scope-get_entry}
use kaigara.Commands.Kaienv.{read_all_env, kaienv_run}
use kaigara.Commands.Kaienv.Lookup.{kaienv_run_capitals}
use kaigara.Commands.SetupStore.{setup_scope}
use kaigara.Value.{marshal, to_json}
use kaigara.Base.Int64.{add_one}
use kaigara.Storage.Sql.{set_entry, assign, write_update}
use kaigara.Storage.Sql.Steps.{IsSealed, read-IsSealed, set_entry-IsSealed}
use kaigara.Storage.Sql.Runs.{write-IsSealed}
use kaigara.Commands.SetupStore.Keeps.{setup_scope-stored}
use kaigara.Config.Service.{
  KaigaraConfig, sql_service, plaintext, get_storage_service, StorageOf,
  get_storage_service-StorageOf,
}
use kaigara.Logs.{ReadResult, publish}
use kaigara.Logs.Relayed.{output, concat, quiet, publish_lem}
use kaigara.Tests.{Service, empty_service, storage, table-IsTable}
use kaigara.Tests.Store.{empty_service-IsSealed}

abbrev app : Str
app = bytes "peatio"

abbrev public : Str
public = bytes "public"

abbrev name : Str
name = bytes "DB_HOST"

-- A service on a database with one scope of one entry.
abbrev one_row : Service
one_row = record empty_service {
  db =
      (record {
        app_name = app;
        scope = public;
        value = some (j_object (member name (j_text (bytes "db")) no_member));
        version = pos 3;
      })
      ∷ [];
}

save_scope_versioned_example :
    (save_scope storage app public ((version_key, int (pos 3)) ∷ []) one_row).0 ≢ ok tt
unfolding as_int64 Dict.lookup str_eq
save_scope_versioned_example =
    save_scope_versioned app public (int (pos 3)) ((version_key, int (pos 3)) ∷ []) one_row
      (refl, tt) refl refl

delete_in_scope-get_entry_example :
    (get_entry app public name
      (read app public (record empty_service {
        db = (delete_in_scope storage app public name empty_service).1.db;
      })).1).0
    ≡ ok none
unfolding delete_in_scope str_eq read delete_entry scope_of Dict.lookup set_scope Dict.insert
    make_scope write as_int64 entries_of Dict.delete write_create
delete_in_scope-get_entry_example =
    delete_in_scope-get_entry app public name empty_service
      (record empty_service { db = (delete_in_scope storage app public name empty_service).1.db })
      table-IsTable empty_service-IsSealed (λ old e. ground arith) refl refl refl

kaienv_run_capitals_example :
    (kaienv_run storage (λ v. []) app public (name ∷ []) one_row).0 ≡ err (no_such_key name)
unfolding read_all_env read_apps read_scopes merge split get_entries Dict.keys to_lower lower_byte
    entries_of scope_of Dict.lookup read str_eq load_row put_scope set_scope Dict.insert make_scope
    unmarshal_into get_entry is_encrypted of_json app_of as_string decrypt_entry get_names
kaienv_run_capitals_example =
    kaienv_run_capitals storage (λ v. []) app public name []
      ((version_key, some (int64 (pos 3))) ∷ ((name, some (text (bytes "db"))) ∷ [])) one_row refl
      (inl refl, (inr (λ p. ground arith), tt)) (λ p. ground arith)

-- A service that has saved an entry.
abbrev with_entry : Service
with_entry =
    (write app public
      (set_entry app public name (text (bytes "db")) (read app public empty_service).1).1).1

with_entry-IsSealed : IsSealed with_entry
with_entry-IsSealed = write-IsSealed table-IsTable app public _ (
    set_entry-IsSealed app public name (text (bytes "db")) _
      (read-IsSealed app public empty_service empty_service-IsSealed))

-- A default for the entry, and one for an entry that it does not have.
abbrev defaults : Dict Str
defaults = (name, bytes "localhost") ∷ ((bytes "DB_PORT", bytes "5432") ∷ [])

-- A service on the database that setupStore leaves.
abbrev later : Service
later = record empty_service { db = (setup_scope storage app public defaults with_entry).1.db }

setup_scope-stored_example :
    ((read app public later).0 ≡ ok tt)
    × (stored app public name (read app public later).1
        ≡ stored app public name (read app public with_entry).1)
unfolding setup_scope get_entries Dict.keys entries_of scope_of Dict.lookup read str_eq load_row
    put_scope set_scope Dict.insert make_scope unmarshal_into get_entry is_encrypted of_json
    set_missing app_of as_string decrypt_entry get_names write write_create write_update set_entry
    assign as_int64 add_one marshal to_json
setup_scope-stored_example =
    setup_scope-stored table-IsTable app public name (some (text (bytes "db"))) defaults
      ((version_key, some (int64 (pos 0))) ∷ ((name, some (text (bytes "db"))) ∷ [])) with_entry
      later with_entry-IsSealed (λ old e. ground arith) refl refl refl refl refl

abbrev settings : KaigaraConfig
settings = record {
  storage = bytes "sql";
  vault_token = [];
  vault_addr = [];
  deployment_id = bytes "opendax";
  encrypt_method = bytes "AES";
  aes_key = [];
  app_names = [];
  scopes = [];
}

get_storage_service-StorageOf_example :
    StorageOf
      (λ addr token. ok tt)
      (λ deployment. ok tt)
      (sql_service (bytes "opendax") plaintext)
      settings
unfolding get_storage_service str_eq
get_storage_service-StorageOf_example =
    get_storage_service-StorageOf (λ addr token. ok tt) (λ deployment. ok tt) settings
      (sql_service (bytes "opendax") plaintext) refl

-- Two reads, of which the second ends the stream, and one that is never made.
abbrev reads : List ReadResult
reads =
    (record { content = bytes "one\n"; failed = false })
    ∷ ((record { content = bytes "two\n"; failed = true })
        ∷ ((record { content = bytes "three\n"; failed = true }) ∷ []))

publish_lem_example :
    ((connected : Bool) → (publish connected reads quiet).stdout ≡ output reads)
    × (concat (publish true reads quiet).messages ≡ output reads)
publish_lem_example = publish_lem reads

entry_text-reload_example : entry_text (some (reload (int (pos 8080)))) ≡ survives (int (pos 8080))
entry_text-reload_example = entry_text-reload (int (pos 8080))

db-readers_example :
    ((kaidump_run storage public one_row).1.db ≡ one_row.db)
    × ((kaienv_run storage (λ v. []) app public [] one_row).1.db ≡ one_row.db)
    × ((build_cmd_env storage (app ∷ []) [] (public ∷ []) one_row).1.db ≡ one_row.db)
db-readers_example =
    db-readers table plaintext_encryptor public app [] (app ∷ []) [] (public ∷ []) (λ v. []) one_row

-- A table that refuses every write.
abbrev full_table : Gorm
full_table = record {
  Db = Unit;
  first = λ app scope db. not_found;
  create = λ d db. (some (bytes "full"), db);
  updates = λ old d db. (some (bytes "full"), db);
  app_names = λ db. ok [];
}

full_table-IsTable : IsTable full_table
full_table-IsTable = record {
  first-create = λ d db e h app scope. ground arith;
  first-updates = λ old d db e h app scope. ground arith;
  create_failed = λ d db m h app scope. refl;
  updates_failed = λ old d db m h app scope. refl;
}

abbrev on_full : StorageService full_table plaintext_encryptor
on_full = record {
  db = tt;
  ds = (app, (public, (version_key, int64 (pos 0)) ∷ []) ∷ []) ∷ [];
  world = tt;
}

write_refused : (write app public on_full).0 ≡ err (db_create (bytes "full"))
unfolding write write_create entries_of as_int64 Dict.lookup scope_of str_eq
write_refused = refl

err-ne-ok : {A : Type 0} (e : Error) (a : A) → err e ≢ ok a
err-ne-ok e a p = ground arith

write_failed_example :
    full_table.first app public (write app public on_full).1.db
    ≡ full_table.first app public on_full.db
write_failed_example =
    write_failed full_table-IsTable app public app public on_full
      (λ e. err-ne-ok (db_create (bytes "full")) tt (sym write_refused ∙ e))
