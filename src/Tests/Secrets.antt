-- ===== src/Tests/Secrets.antt =====
-- The theorems on the Vault storage and the transit encryptor, applied.
use kaigara.Base.{◌≡◌, refl, [], ◌∷◌, Str, bytes, str_eq}
use kaigara.Base.Dict
use kaigara.Base.Exec.{ok}
use kaigara.Base.Int64.{digit, more}
use kaigara.Storage.Vault.Bounds.{int64_or_error, vault_versions_of_digits}
use kaigara.Vault.{Client}
use kaigara.Value.{json_number}
use kaigara.Storage.Memory.{app_of}
use kaigara.Base.{none, some, str_eq, arith}
use kaigara.Value.{Value, text}
use kaigara.Encryptor.Transit.{transit_encrypt, transit_decrypt, create_transit_key_if_not_exist}
use kaigara.Encryptor.Transit.Opens.{transit_decrypt-transit_encrypt}
use kaigara.Storage.Memory.{scope_of}
use kaigara.Storage.Vault.{Service, write, written, get_latest_version, get_current_version}
use kaigara.Storage.Vault.Versions.{vault_latest-eq-current_of_write}
use kaigara.Tests.{server, plain_base64, server-IsTransit, server-IsKv}

abbrev app : Str
app = bytes "peatio"

abbrev secret : Str
secret = bytes "secret"

abbrev name : Str
name = bytes "key"

abbrev value : Value
value = text (bytes "value")

-- A service that has read an empty scope.
abbrev loaded : Service server
loaded = record {
  scope_data = (app, (secret, []) ∷ []) ∷ [];
  metadata = (app, (secret, []) ∷ []) ∷ [];
  world = [];
  deployment_id = bytes "opendax";
}

vault_latest-eq-current_of_write_example :
    (get_latest_version app secret (write app secret loaded).1).0
    ≡ (get_current_version app secret (write app secret loaded).1).0
unfolding write written str_eq Dict.lookup
vault_latest-eq-current_of_write_example =
    vault_latest-eq-current_of_write app secret loaded server-IsKv refl

transit_decrypt-transit_encrypt_example :
    (transit_decrypt server plain_base64 name app []).0 ≡ ok name
unfolding transit_encrypt create_transit_key_if_not_exist Dict.lookup str_eq
transit_decrypt-transit_encrypt_example =
    transit_decrypt-transit_encrypt server plain_base64 server-IsTransit name app [] [] refl refl

-- A server that answers each read with the latest version 12.
abbrev answering : Client
answering = record {
  World = Unit {0};
  logical_read =
      λ path w. (ok (some ((bytes "current_version", json_number (bytes "12")) ∷ [])), w);
  logical_write = λ path fields w. (ok none, w);
  logical_list = λ path w. (ok none, w);
  logical_delete = λ path w. (ok none, w);
}

-- A service that has read version 7 of an empty scope.
abbrev at_version : Service answering
at_version = record {
  scope_data = (app, (secret, []) ∷ []) ∷ [];
  metadata = (app, (secret, (bytes "version", json_number (bytes "7")) ∷ []) ∷ []) ∷ [];
  world = tt;
  deployment_id = bytes "opendax";
}

vault_versions_of_digits_example :
    ((get_current_version app secret at_version).0 ≡ int64_or_error 7)
    × ((get_latest_version app secret at_version).0 ≡ int64_or_error 12)
unfolding scope_of app_of Dict.lookup str_eq
vault_versions_of_digits_example =
    vault_versions_of_digits app secret 7 12 (bytes "7") (bytes "12")
      ((bytes "version", json_number (bytes "7")) ∷ [])
      ((bytes "current_version", json_number (bytes "12")) ∷ []) at_version (digit 7 (omega arith))
      (more (digit 1 (omega arith)) 2 (omega arith)) refl refl refl refl
