-- ===== src/Tests/Refined.antt =====
-- The theorems on runs of commands on a storage, applied.
use kaigara.Base.{◌≡◌, refl, Option, none, some, inr, List, [], ◌∷◌, Str, bytes, str_eq, arith}
use kaigara.Base.Dict
use kaigara.Base.Dict.{Dict}
use kaigara.Base.Exec.{ok}
use kaigara.Value.{Value, text}
use kaigara.Encryptor.{Encryptor, IsFaithful}
use kaigara.Encryptor.Aes.{aes_encryptor, aes_encryptor-IsFaithful, aes_encrypt, aes_decrypt}
use kaigara.Storage.Memory.{scope_of, app_of}
use kaigara.Storage.Plain.{Plain, Command, set, get, delete, run, replay}
use kaigara.Storage.Sql.{StorageService, sql_storage, entries_of}
use kaigara.Storage.Sql.Entries.{stored}
use kaigara.Storage.Sql.Refines as InSql
use kaigara.Storage.Sql.Refines.{sql_run_refines}
use kaigara.Storage.Sql.Total.{Accepts, sql_run_total}
use kaigara.Storage.Vault.{Service, vault_storage}
use kaigara.Storage.Vault.Entries.{kept}
use kaigara.Storage.Vault.Refines as InVault
use kaigara.Storage.Vault.Refines.{vault_run_refines}
use kaigara.Tests.{table, open_crypto, open_crypto-IsCrypto, server, plain_base64, server-IsTransit}

abbrev app : Str
app = bytes "peatio"

abbrev secret : Str
secret = bytes "secret"

abbrev name : Str
name = bytes "key"

abbrev value : Value
value = text (bytes "value")

abbrev commands : List Command
commands =
    set app secret name value
    ∷ (get app secret name ∷ (delete app secret name ∷ (get app secret name ∷ [])))

abbrev nothing : Plain
nothing _ _ _ = none

abbrev aes : Encryptor
aes = aes_encryptor open_crypto (bytes "0123456789abcdef")

aes-IsFaithful : IsFaithful aes
aes-IsFaithful =
    aes_encryptor-IsFaithful open_crypto open_crypto-IsCrypto (bytes "0123456789abcdef")

aes-Accepts : Accepts aes
unfolding aes_encrypt
aes-Accepts p a w = (_, refl)

-- A service that has loaded an empty scope.
abbrev loaded : StorageService table aes
loaded = record { db = []; ds = (app, (secret, []) ∷ []) ∷ []; world = tt }

nothing_stored : (a c n : Str) → stored a c n loaded ≡ none
unfolding stored entries_of scope_of app_of Dict.lookup
nothing_stored a c n = ground arith

loaded-Represents : InSql.Represents loaded nothing
loaded-Represents a c n = rw (nothing_stored a c n) tt

sql_run_refines_example :
    (some value ∷ (none ∷ []) ≡ (replay commands nothing).0)
    × InSql.Represents (run (sql_storage table aes) commands loaded).1 (replay commands nothing).1
unfolding run kaigara.Storage.Sql.set_entry kaigara.Storage.Sql.is_encrypted str_eq
    kaigara.Storage.Sql.as_string aes_encrypt scope_of Dict.lookup kaigara.Storage.Sql.get_entry
    kaigara.Storage.Memory.set_scope Dict.insert aes_decrypt kaigara.Storage.Sql.delete_entry
    Dict.delete kaigara.Base.drop
sql_run_refines_example =
    sql_run_refines commands (some value ∷ (none ∷ [])) loaded nothing aes-IsFaithful
      loaded-Represents refl

sql_run_total_example :
    (run (sql_storage table aes) commands loaded).0 ≡ ok (replay commands nothing).0
unfolding scope_of Dict.lookup str_eq
sql_run_total_example =
    sql_run_total aes-Accepts aes-IsFaithful commands loaded nothing loaded-Represents
      ((((_, refl), inr (bytes "value", refl)), ((_, refl), (tt, ((_, refl), tt)))))

-- A service that has read an empty scope from Vault.
abbrev from_vault : Service server
from_vault = record {
  scope_data = (app, (secret, []) ∷ []) ∷ [];
  metadata = (app, (secret, []) ∷ []) ∷ [];
  world = [];
  deployment_id = bytes "opendax";
}

nothing_kept : (a c n : Str) → kept from_vault a c n ≡ none
unfolding kept entries_of scope_of app_of Dict.lookup
nothing_kept a c n = ground arith

from_vault-Represents : InVault.Represents plain_base64 from_vault nothing
from_vault-Represents a c n = rw (nothing_kept a c n) tt

vault_run_refines_example :
    (some value ∷ (none ∷ []) ≡ (replay commands nothing).0)
    × InVault.Represents plain_base64
        (run (vault_storage server plain_base64) commands from_vault).1
        (replay commands nothing).1
unfolding run kaigara.Storage.Vault.set_entry str_eq Dict.lookup scope_of
    kaigara.Storage.Vault.get_entry kaigara.Storage.Memory.set_scope Dict.insert
    kaigara.Storage.Vault.delete_entry kaigara.Storage.Vault.write Dict.delete
vault_run_refines_example =
    vault_run_refines plain_base64 server-IsTransit commands (some value ∷ (none ∷ [])) from_vault
      nothing from_vault-Represents refl
