-- ===== src/Tests/Saved.antt =====
-- The theorems on what kaisave leaves for others, applied.
use kaigara.Value.{marshal, of_json, to_json, unmarshal_into}
use kaigara.Base.{has_prefix, to_upper, upper_byte}
use kaigara.Config.Kfile.{cut_prefix, kfile_match}
use kaigara.Config.CmdEnv.{
  add_apps, add_entries, add_entry, add_scope, add_scopes, build_cmd_env, entry_text, inherited,
  put_entry,
}
use kaigara.Encryptor.Plaintext.{plaintext_decrypt, plaintext_encrypt}
use kaigara.Commands.Kaisave.{save_entries, save_scope, save_scopes}
use kaigara.Storage.Memory.{app_of, scope_of, set_scope}
use kaigara.Base.Int64.{add_one}
use kaigara.Storage.Sql.{
  as_int64, as_string, assign, decrypt_entry, entries_of, get_entries, get_entry, get_names,
  is_encrypted, load_row, make_scope, put_scope, set_encrypted, set_entry, write_create,
}
use kaigara.Base.{Among, List, Option, if◌then◌else◌, none, inl, inr, split}
use kaigara.Config.CmdEnv.{
  add_apps, add_entries, add_entry, add_scope, add_scopes, build_cmd_env, entry_text, inherited,
}
use kaigara.Encryptor.Plaintext.{plaintext_encrypt}
use kaigara.Commands.Kaisave.{save_entries, save_scope, save_scopes}
use kaigara.Storage.Memory.{app_of, scope_of, set_scope}
use kaigara.Base.Int64.{add_one}
use kaigara.Storage.Sql.{
  as_int64, as_string, assign, decrypt_entry, entries_of, get_entries, get_entry, get_names,
  is_encrypted, make_scope, put_scope, set_encrypted, set_entry, write_create,
}
use kaigara.Base.{◌≡◌, refl, some, [], ◌∷◌, Str, bytes, str_eq, arith}
use kaigara.Base.Dict
use kaigara.Base.Dict.{Dict}
use kaigara.Base.Exec.{ok}
use kaigara.Base.Int64.{pos}
use kaigara.Value.{Value, text, int64, reload}
use kaigara.Encryptor.Plaintext.{plaintext_encryptor-IsFaithful}
use kaigara.Storage.Sql.{version_key, list_app_names, read, write, get_entry}
use kaigara.Config.CmdEnv.{Env, kaigara_prefix}
use kaigara.Config.CmdEnv.Seen.{or_else, seen, scopes_say}
use kaigara.Config.CmdEnv.Precedence.{read_apps, build_cmd_env-seen}
use kaigara.Config.CmdEnv.Provides.{variable}
use kaigara.Commands.Kaisave.ToChild.{build_cmd_env-save_all}
use kaigara.Commands.Kaisave.{SecretsFile, save_all}
use kaigara.Commands.Kaidump.{Dump, dump_scopes, dump_apps, kaidump_run}
use kaigara.Commands.Kaidump.Dumped.{Dumps, kaidump_run-save_all}
use kaigara.Tests.{Service, table-IsTable, empty_service, storage}
use kaigara.Tests.Store.{empty_service-IsSealed}

abbrev app : Str
app = bytes "peatio"

abbrev secret : Str
secret = bytes "secret"

abbrev name : Str
name = bytes "key"

abbrev value : Value
value = text (bytes "value")

abbrev file : SecretsFile
file = (app, (secret, (name, value) ∷ []) ∷ []) ∷ []

abbrev built : Env
built = record { vars = bytes "KEY=value" ∷ []; files = [] }

build_cmd_env-save_all_example : Among (variable name (bytes "value")) built.vars
unfolding read write make_scope as_int64 add_one app_of scope_of set_scope entries_of put_scope
    write_create Dict.lookup Dict.insert str_eq save_all save_scopes save_scope save_entries
    set_entry is_encrypted as_string plaintext_encrypt assign set_encrypted build_cmd_env add_apps
    add_scopes add_scope get_entries get_names get_entry decrypt_entry plaintext_decrypt Dict.keys
    add_entries add_entry put_entry entry_text inherited kfile_match cut_prefix to_upper upper_byte
    has_prefix load_row marshal unmarshal_into to_json of_json
build_cmd_env-save_all_example =
    build_cmd_env-save_all app secret name (bytes "value") file ((secret, (name, value) ∷ []) ∷ [])
      ((name, value) ∷ []) (app ∷ []) (bytes "KAIGARA_REDIS_URL=" ∷ []) (secret ∷ []) built
      empty_service (record empty_service { db = (save_all storage file empty_service).1.db })
      table-IsTable plaintext_encryptor-IsFaithful empty_service-IsSealed (λ old e. ground arith)
      ((refl, tt), (refl, tt), (refl, tt)) refl refl refl refl refl refl refl (inr (inl refl))
      (inl refl) refl

-- A child that inherits another value of the variable.
abbrev current : List Str
current = bytes "KEY=old" ∷ []

abbrev shadowed : Env
shadowed = record { vars = bytes "KEY=old" ∷ (bytes "KEY=value" ∷ []); files = [] }

abbrev saved_service : Service
saved_service = record empty_service { db = (save_all storage file empty_service).1.db }

build_cmd_env-seen_example :
    (all : List (Dict (Option Value))) × ((read_apps storage
        (bytes "global" ∷ (app ∷ []))
        (secret ∷ [])
        saved_service).0
      ≡ ok all)
    × ((name : Str)
        → seen name shadowed.vars
          ≡ or_else
              (scopes_say name all)
              (if has_prefix name kaigara_prefix then none else seen name current))
unfolding read write make_scope as_int64 add_one app_of scope_of set_scope entries_of put_scope
    write_create Dict.lookup Dict.insert str_eq save_all save_scopes save_scope save_entries
    set_entry is_encrypted as_string plaintext_encrypt assign set_encrypted build_cmd_env add_apps
    add_scopes add_scope get_entries get_names get_entry decrypt_entry plaintext_decrypt Dict.keys
    add_entries add_entry put_entry entry_text inherited kfile_match cut_prefix to_upper upper_byte
    has_prefix load_row marshal unmarshal_into to_json of_json
build_cmd_env-seen_example =
    build_cmd_env-seen storage (app ∷ []) current (secret ∷ []) shadowed saved_service refl

abbrev dumped : Dump
dumped = (app, (secret, (version_key, some (int64 (pos 0))) ∷ ((name, some value) ∷ [])) ∷ []) ∷ []

kaidump_run-save_all_example : Dumps app secret name (reload value) dumped
unfolding read write make_scope as_int64 add_one app_of scope_of set_scope entries_of put_scope
    write_create Dict.lookup Dict.insert str_eq save_all save_scopes save_scope save_entries
    set_entry is_encrypted as_string plaintext_encrypt assign set_encrypted kaidump_run dump_apps
    dump_scopes get_entries get_names get_entry decrypt_entry plaintext_decrypt Dict.keys split
    list_app_names load_row marshal unmarshal_into to_json of_json
kaidump_run-save_all_example =
    kaidump_run-save_all app secret name secret value file ((secret, (name, value) ∷ []) ∷ [])
      ((name, value) ∷ []) (app ∷ []) dumped empty_service
      (record empty_service { db = (save_all storage file empty_service).1.db }) table-IsTable
      plaintext_encryptor-IsFaithful empty_service-IsSealed (λ old e. ground arith)
      ((refl, tt), (refl, tt), (refl, tt)) refl refl refl refl refl refl refl (inl refl) (inl refl)
      refl
