-- ===== src/Tests/Kept.antt =====
-- A Vault server that keeps its secrets, and the theorem on what a second service reads, applied.
use kaigara.Base.{
  ◌≡◌, refl, ap, Option, none, some, [], ◌∷◌, Str, bytes, str_eq, str_eq_refl, has_prefix, drop,
  if◌then◌else◌,
}
use kaigara.Base.Dict
use kaigara.Base.Dict.{Dict}
use kaigara.Base.Exec.{ok}
use kaigara.Value.{Value, text, mapping, no_field}
use kaigara.Vault.{Client, IsTransit}
use kaigara.Vault.KvStore.{IsKvStore}
use kaigara.Storage.Memory.{scope_of, set_scope}
use kaigara.Storage.Vault.{
  Service, key_path, secret_path, init_transit_key, read, write, written, set_entry, get_entry,
  encrypt, assign_metadata,
}
use kaigara.Storage.Vault.Persist.{vault_get_entry-write}
use kaigara.Tests.{answer, answered_text, plain_base64}

abbrev kv_path : Str
kv_path = bytes "secret/data/"

abbrev kv_answer : Option Value → Option (Dict Value)
kv_answer none = none
kv_answer (some v) = some ((bytes "data", v) ∷ ((bytes "metadata", mapping no_field) ∷ []))

abbrev kv_put : Str → Dict Value → Dict Value → Dict Value
kv_put secret [] w = w
kv_put secret ((k, v) ∷ fields) w = (secret, v) ∷ w

-- The newest version of a secret stands first. What it encrypts, it leaves as it is.
abbrev keeper : Client
keeper = record {
  World = Dict Value;
  logical_read = λ path w. (
    ok (if has_prefix path kv_path then kv_answer (Dict.lookup (drop 12 path) w) else some []),
    w,
  );
  logical_write = λ path fields w.
      (if has_prefix path kv_path
        then (ok (some []), kv_put (drop 12 path) fields w)
        else (ok (some (answer fields []).0), w));
  logical_list = λ path w. (ok none, w);
  logical_delete = λ path w. (ok none, w);
}

keeper-IsTransit : IsTransit keeper plain_base64
unfolding str_eq Dict.lookup has_prefix
keeper-IsTransit = record {
  decrypts = λ key p c fields w later h found. (
    (bytes "plaintext", text c) ∷ [],
    refl,
    ap (λ x. some (text x)) (answered_text p c fields h found),
  );
  decode-encode = λ s. refl;
}

keeper-IsKvStore : IsKvStore keeper
unfolding has_prefix drop Dict.lookup str_eq
keeper-IsKvStore = record {
  data_at = λ w secret. Dict.lookup secret w;
  delivered = λ v. v;
  delivered_text = λ s. refl;
  delivered_mapping = λ fs nodup. (fs, refl, λ k v h. h);
  keeps_written = λ secret v r w h. rw (str_eq_refl secret) refl;
  reads_back = λ secret v w h. (
    (bytes "data", v) ∷ ((bytes "metadata", mapping no_field) ∷ []),
    no_field,
    rw h refl,
    refl,
    refl,
  );
  keeps_read = λ path secret w. refl;
  keeps_transit = λ path secret fields w. refl;
}

abbrev app : Str
app = bytes "peatio"

abbrev secret : Str
secret = bytes "secret"

abbrev name : Str
name = bytes "key"

abbrev p : Str
p = bytes "value"

-- A service that has read an empty scope.
abbrev loaded : Service keeper
loaded = record {
  scope_data = (app, (secret, []) ∷ []) ∷ [];
  metadata = (app, (secret, []) ∷ []) ∷ [];
  world = [];
  deployment_id = bytes "opendax";
}

-- What it is after it has set a secret, and a new service on what it then has written.
abbrev filled : Service keeper
filled = record loaded { scope_data = (app, (secret, (name, text p) ∷ []) ∷ []) ∷ [] }

abbrev fresh : Service keeper
fresh = record {
  scope_data = [];
  metadata = [];
  world = (write app secret filled).1.world;
  deployment_id = bytes "opendax";
}

vault_get_entry-write_example :
    (get_entry plain_base64 app secret name (read app secret fresh).1).0 ≡ ok (some (text p))
unfolding set_entry encrypt write written assign_metadata str_eq Dict.lookup Dict.insert scope_of
    has_prefix drop set_scope key_path secret_path init_transit_key
vault_get_entry-write_example =
    vault_get_entry-write keeper-IsKvStore plain_base64 keeper-IsTransit app secret name p
      ((name, text p) ∷ []) loaded fresh refl (refl, tt) refl refl refl refl refl
