-- ===== src/Storage/Kv.antt =====
-- pkg/storage/vault/vault.go: the Service, the paths and keys it asks Vault for, Read and Write.
use kaigara.Base.{
  Bool, true, false, Option, none, some, [], ◌∷◌, ◌++◌, Str, bytes, str_eq, if◌then◌else◌,
}
use kaigara.Base.Dict
use kaigara.Base.Dict.{Dict}
use kaigara.Base.Exec.{
  Exec, ok, err, panic, pure, abort, focus, ◌>>=◌, ◌>>◌, nil_map, bad_assertion, nil_dereference,
  no_metadata, no_deployment,
}
use kaigara.Value.{Value, bool, mapping}
use kaigara.Vault.{Client}
use kaigara.Storage.Response.{entries_of_fields, not_nil, fields_of_response, sent_data, is_some}
use kaigara.Storage.Memory.{scope_of, set_scope}

-- The Service: what it has loaded, and the world of its client.
pub record Service (C : Client) : Type 0 where
  pub scope_data : Dict (Dict (Dict Value))
  pub metadata : Dict (Dict (Dict Value))
  pub world : C.World
  pub deployment_id : Str

-- m[app], made if it is nil
unfoldable pub make_app : Str → Dict (Dict (Dict Value)) → Dict (Dict (Dict Value))
make_app app m = elim (Dict.lookup app m) [ none ↦ Dict.insert app [] m | some _ ↦ m ]

module _ {C : Client} where
  -- A call of the client.
  abbrev pub with_client : {A : Type 0} → Exec C.World A → Exec (Service C) A
  with_client = focus (λ s. s.world) (λ w s. record s { world = w })

  unfoldable pub secret_path : Str → Str → Str → Service C → Str
  secret_path app directory scope s =
      bytes "secret/"
      ++ (directory
          ++ (bytes "/" ++ (s.deployment_id ++ (bytes "/" ++ (app ++ (bytes "/" ++ scope))))))

  unfoldable pub key_path : Str → Str → Service C → Str
  key_path app scope s = secret_path app (bytes "data") scope s

  unfoldable pub metadata_path : Str → Str → Service C → Str
  metadata_path app scope s = secret_path app (bytes "metadata") scope s

  unfoldable pub transit_key_name : Str → Service C → Str
  transit_key_name app s = s.deployment_id ++ (bytes "_kaigara_" ++ app)

  -- A call of the client whose path depends on the service.
  abbrev pub call : {A : Type 0} → (Service C → Exec C.World A) → Exec (Service C) A
  call request s = with_client (request s) s

  unfoldable pub service_key_exists : Str → Exec (Service C) Bool
  service_key_exists app = do
    secret ← call (λ s. C.logical_read (bytes "transit/keys/" ++ transit_key_name app s))
    pure (is_some secret)

  unfoldable pub service_key_create : Str → Exec (Service C) (Unit {0})
  service_key_create app = do
    call (λ s.
        C.logical_write (bytes "transit/keys/" ++ transit_key_name app s)
          ((bytes "force", bool true) ∷ []))
    pure tt

  abbrev unless_exists : Bool → Exec (Service C) (Unit {0}) → Exec (Service C) (Unit {0})
  unless_exists true create = pure tt
  unless_exists false create = create

  unfoldable pub init_transit_key : Str → Exec (Service C) (Unit {0})
  unfolding service_key_exists service_key_create
  init_transit_key app = do
    exists ← service_key_exists app
    unless_exists exists (service_key_create app)

  abbrev pub put_data : Str → Str → Dict Value → Service C → Service C
  put_data app scope m s = record s { scope_data = set_scope app scope m s.scope_data }

  abbrev pub put_metadata : Str → Str → Dict Value → Service C → Service C
  put_metadata app scope m s = record s { metadata = set_scope app scope m s.metadata }

  -- What Read does with a response: no data empties the scope, and data without metadata panics.
  unfoldable pub load : Str → Str → Option (Dict Value) → Exec (Service C) (Unit {0})
  unfolding entries_of_fields
  load app scope secret s =
      elim (not_nil (Dict.lookup (bytes "data") (fields_of_response secret))) [
        | none ↦ (ok tt, put_metadata app scope [] (put_data app scope [] s))
        | some (mapping fs) ↦
            (let t = put_data app scope (entries_of_fields fs) s in
              elim (not_nil (Dict.lookup (bytes "metadata") (fields_of_response secret))) [
                | none ↦ (panic no_metadata, t)
                | some (mapping ms) ↦ (ok tt, put_metadata app scope (entries_of_fields ms) t)
                | some _ ↦ (panic bad_assertion, t)
              ])
        | some _ ↦ (panic bad_assertion, s)
      ]

  unfoldable pub read : Str → Str → Exec (Service C) (Unit {0})
  unfolding init_transit_key load make_app
  read app scope = do
    init_transit_key app
    secret ← call (λ s. C.logical_read (key_path app scope s))
    (λ s.
        load app scope secret
          (record s { scope_data = make_app app s.scope_data; metadata = make_app app s.metadata }))

  -- vs.metadata[app][scope] = m, which panics where vs.metadata[app] is nil
  unfoldable pub assign_metadata : Str → Str → Dict Value → Exec (Service C) (Unit {0})
  assign_metadata app scope m s = elim (Dict.lookup app s.metadata) [
    | none ↦ (panic nil_map, s)
    | some _ ↦ (ok tt, put_metadata app scope m s)
  ]

  unfoldable pub written : Str → Str → Option (Dict Value) → Exec (Service C) (Unit {0})
  unfolding assign_metadata
  written app scope none = abort nil_dereference
  written app scope (some m) = assign_metadata app scope m

  unfoldable pub write : Str → Str → Exec (Service C) (Unit {0})
  unfolding written
  write app scope s =
      if str_eq s.deployment_id []
      then (err no_deployment, s)
      else (do
        metadata ← call (λ t.
            C.logical_write (key_path app scope t)
              ((bytes "data", sent_data (scope_of app scope t.scope_data)) ∷ []))
        written app scope metadata)
          s
