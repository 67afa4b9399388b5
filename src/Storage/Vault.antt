-- ===== src/Storage/Vault.antt =====
-- pkg/storage/vault/vault.go: the storage service on Vault's KV and transit engines, over Read and Write
-- of Storage/Kv. The renewal of the token is left out.
pub mod SetGet
pub mod Versions
pub mod Entries
pub mod Refines
pub mod Persist
pub mod Bounds
use kaigara.Base.{
  Bool, true, false, Option, none, some, List, [], ◌∷◌, ◌++◌, Str, bytes, str_eq, ◌==◌,
  if◌then◌else◌,
}
use kaigara.Base.Dict
use kaigara.Base.Dict.{Dict}
use kaigara.Base.Exec.{
  Exec, Outcome, ok, err, panic, pure, fail, abort, lift, focus, continue, ◌>>=◌, ◌>>◌, nil_map,
  bad_assertion, nil_dereference, no_metadata, no_deployment, missing_token, missing_deployment,
  missing_ciphertext, missing_plaintext, not_a_string, scope_not_map, bad_number,
}
use kaigara.Base.Int64.{ℤ, negsuc, parse_int64}
use kaigara.Value.{
  Value, null, bool, text, json_number, seq, mapping, Items, no_item, item, Fields, no_field, field,
}
use kaigara.Vault.{Client, Base64, string_field}
use kaigara.Storage.Response.{
  entries_of_fields, fields_of_entries, not_nil, fields_of_response, sent_data, app_names_of,
  listed, version_of, is_some,
}
use kaigara.Storage.Interface.{Storage}
use kaigara.Storage.Memory.{scope_of, set_scope}
pub use kaigara.Storage.Kv.{Service, with_client, call, put_data, put_metadata}
unfoldable pub use kaigara.Storage.Kv.{
  make_app, secret_path, key_path, metadata_path, transit_key_name, service_key_exists,
  service_key_create, init_transit_key, load, read, assign_metadata, written, write,
}

abbrev pub transit_scope : Str
transit_scope = bytes "secret"

module _ {C : Client} where
  -- vs.scope_data[app][scope].(map[string]interface{})[name] = value
  unfoldable pub assign : Str → Str → Str → Value → Exec (Service C) (Unit {0})
  assign app scope name value s = elim (scope_of app scope s.scope_data) [
    | none ↦ (panic bad_assertion, s)
    | some m ↦ (ok tt, put_data app scope (Dict.insert name value m) s)
  ]

  unfoldable pub list_entries : Str → Str → Exec (Service C) (List Str)
  list_entries app scope s = elim (scope_of app scope s.scope_data) [
    | none ↦ (panic bad_assertion, s)
    | some m ↦ (ok (Dict.keys m), s)
  ]

  unfoldable pub list_app_names : Exec (Service C) (List Str)
  unfolding app_names_of
  list_app_names = do
    secret ← call (λ s. C.logical_list (bytes "secret/metadata/" ++ s.deployment_id))
    lift (listed secret)

  unfoldable pub get_current_version : Str → Str → Exec (Service C) ℤ
  get_current_version app scope s = elim (scope_of app scope s.metadata) [
    | none ↦ (panic bad_assertion, s)
    | some m ↦ (version_of (Dict.lookup (bytes "version") m), s)
  ]

  unfoldable pub get_latest_version : Str → Str → Exec (Service C) ℤ
  get_latest_version app scope = do
    metadata ← call (λ s. C.logical_read (metadata_path app scope s))
    lift (version_of (Dict.lookup (bytes "current_version") (fields_of_response metadata)))

  unfoldable pub delete_metadata : Str → Str → Option (Dict Value) → Exec (Service C) (Unit {0})
  unfolding assign_metadata
  delete_metadata app scope none = pure tt
  delete_metadata app scope (some m) = assign_metadata app scope m

  unfoldable pub delete_name : Str → Str → Str → Exec (Service C) (Unit {0})
  delete_name app scope name s = elim (scope_of app scope s.scope_data) [
    | none ↦ (panic bad_assertion, s)
    | some m ↦ (ok tt, put_data app scope (Dict.delete name m) s)
  ]

  unfoldable pub delete_entry : Str → Str → Str → Exec (Service C) (Unit {0})
  unfolding delete_metadata delete_name
  delete_entry app scope name = do
    metadata ← call (λ s. C.logical_delete (key_path app scope s))
    delete_metadata app scope metadata
    delete_name app scope name
    write app scope

  module _ (B : Base64) where
    unfoldable pub encrypt : Str → Str → Exec (Service C) Str
    unfolding string_field
    encrypt app plaintext = do
      secret ← call (λ s.
          C.logical_write (bytes "transit/encrypt/" ++ transit_key_name app s)
            ((bytes "plaintext", text (B.encode plaintext)) ∷ []))
      lift (string_field (bytes "ciphertext") missing_ciphertext secret)

    unfoldable pub decrypt : Str → Str → Exec (Service C) Str
    unfolding string_field
    decrypt app ciphertext = do
      secret ← call (λ s.
          C.logical_write (bytes "transit/decrypt/" ++ transit_key_name app s)
            ((bytes "ciphertext", text ciphertext) ∷ []))
      encoded ← lift (string_field (bytes "plaintext") missing_plaintext secret)
      lift (B.decode encoded)

    unfoldable pub set_secret : Str → Str → Str → Value → Exec (Service C) (Unit {0})
    unfolding assign encrypt
    set_secret app scope name (text str) = do
      encrypted ← encrypt app str
      assign app scope name (text encrypted)
    set_secret app scope name _ = fail (not_a_string name)

    unfoldable pub set_entry : Str → Str → Str → Value → Exec (Service C) (Unit {0})
    unfolding set_secret assign
    set_entry app scope name value =
        if str_eq scope transit_scope
        then set_secret app scope name value
        else assign app scope name value

    unfoldable pub set_entries : Str → Str → Dict Value → Exec (Service C) (Unit {0})
    set_entries app scope [] = pure tt
    set_entries app scope ((k, v) ∷ values) = do
      set_entry app scope k v
      set_entries app scope values

    unfoldable pub decrypt_raw : Str → Str → Option Value → Exec (Service C) (Option Value)
    unfolding decrypt
    decrypt_raw app name none = pure none
    decrypt_raw app name (some (text str)) = do
      decrypted ← decrypt app str
      pure (some (text decrypted))
    decrypt_raw app name (some _) = fail (not_a_string name)

    unfoldable pub get_entry : Str → Str → Str → Exec (Service C) (Option Value)
    unfolding decrypt_raw
    get_entry app scope name s = elim (scope_of app scope s.scope_data) [
      | none ↦
          (if str_eq scope transit_scope then (err scope_not_map, s) else (panic bad_assertion, s))
      | some m ↦
          (if str_eq scope transit_scope
            then decrypt_raw app name (Dict.lookup name m) s
            else (ok (Dict.lookup name m), s))
    ]

    unfoldable pub get_names :
        Str → Str → List Str → Dict (Option Value) → Exec (Service C) (Dict (Option Value))
    get_names app scope [] res = pure res
    get_names app scope (k ∷ ks) res = do
      val ← get_entry app scope k
      get_names app scope ks (Dict.insert k val res)

    unfoldable pub get_entries : Str → Str → Exec (Service C) (Dict (Option Value))
    unfolding get_names
    get_entries app scope s = elim (scope_of app scope s.scope_data) [
      | none ↦ (panic bad_assertion, s)
      | some m ↦ get_names app scope (Dict.keys m) [] s
    ]

abbrev pub vault_storage : Client → Base64 → Storage
vault_storage C B = record {
  State = Service C;
  read = read;
  write = write;
  set_entry = set_entry B;
  set_entries = set_entries B;
  get_entry = get_entry B;
  get_entries = get_entries B;
  list_entries = list_entries;
  delete_entry = delete_entry;
  list_app_names = list_app_names;
  get_current_version = get_current_version;
  get_latest_version = get_latest_version;
}

-- The checks of NewService on the token and the deployment.
unfoldable pub new_service : {C : Client} → Str → Str → C.World → Outcome (Service C)
new_service [] deployment world = panic missing_token
new_service (c ∷ token) [] world = panic missing_deployment
new_service (c ∷ token) (d ∷ deployment) world =
    ok (record { scope_data = []; metadata = []; world = world; deployment_id = d ∷ deployment })
