-- ===== src/Tests/Store.antt =====
-- The theorems on the SQL storage and the encryptors, applied.
use kaigara.Base.{◌≡◌, refl, none, some, [], ◌∷◌, Str, bytes, str_eq, if◌then◌else◌, arith}
use kaigara.Base.Dict
use kaigara.Base.Dict.{Dict}
use kaigara.Base.Exec.{ok}
use kaigara.Base.Int64.{ℤ, pos}
use kaigara.Value.{Value, text, int64, j_null}
use kaigara.Value.Laws.{reloaded}
use kaigara.Encryptor.Aes.{aes_encrypt, aes_decrypt, aes_decrypt-aes_encrypt}
use kaigara.Storage.Memory.{scope_of, app_of}
use kaigara.Storage.Gorm.{Data}
use kaigara.Storage.Sql.{version_key, as_int64, entries_of, read, write, write_create, set_entry}
use kaigara.Storage.Sql.Entries.{stored}
use kaigara.Storage.Sql.Persist.{read-write}
use kaigara.Storage.Sql.Steps.{IsSealed}
use kaigara.Storage.Sql.Runs.{reads, writes, sets, here, next, Reach-IsSealed}
use kaigara.Tests.{table-IsTable, Service, empty_service, open_crypto, open_crypto-IsCrypto}

abbrev app : Str
app = bytes "peatio"

abbrev secret : Str
secret = bytes "secret"

abbrev name : Str
name = bytes "key"

abbrev value : Value
value = text (bytes "value")

abbrev at_version : ℤ → Data
at_version n = record { app_name = app; scope = secret; value = some j_null; version = n }

-- A service that has loaded the scope of an empty database, and then set one entry.
abbrev loaded : Service
loaded = record empty_service { ds = (app, (secret, (version_key, int64 (pos 0)) ∷ []) ∷ []) ∷ [] }

abbrev filled : Service
filled = record empty_service {
  ds = (app, (secret, (version_key, int64 (pos 0)) ∷ ((name, value) ∷ [])) ∷ []) ∷ [];
}

pub empty_service-IsSealed : IsSealed empty_service
unfolding scope_of app_of Dict.lookup
empty_service-IsSealed = record {
  memory = λ app scope m e. ground arith;
  database = λ app scope d e. ground arith;
}

Reach-IsSealed_example :
    IsSealed
      (write app secret (set_entry app secret name value (read app secret empty_service).1).1).1
Reach-IsSealed_example =
    Reach-IsSealed table-IsTable
      (next
        (next (next here (reads app secret empty_service))
          (sets app secret name value (read app secret empty_service).1))
        (writes app secret (set_entry app secret name value (read app secret empty_service).1).1))
      empty_service-IsSealed

read-write_example :
    ((read app secret (record empty_service { db = (write app secret filled).1.db })).0 ≡ ok tt)
    × ((k : Str)
        → stored app secret k
            (read app secret (record empty_service { db = (write app secret filled).1.db })).1
          ≡ (if str_eq version_key k
              then stored app secret k (write app secret filled).1
              else reloaded (stored app secret k (write app secret filled).1) none))
unfolding write write_create entries_of Dict.lookup scope_of as_int64 str_eq
read-write_example =
    read-write table-IsTable app secret filled
      (record empty_service { db = (write app secret filled).1.db }) (refl, (refl, tt))
      (λ old e. ground arith) refl refl

-- A writer over a row at version 4, and a reader that has loaded that version.
abbrev writer : Service
writer = record filled { db = at_version (pos 4) ∷ [] }

abbrev reader : Service
reader = record {
  db = (write app secret writer).1.db;
  ds = (app, (secret, (version_key, int64 (pos 4)) ∷ []) ∷ []) ∷ [];
  world = tt;
}

-- Twelve zeros for the nonce, and the plaintext.
abbrev encrypted_name : Str
encrypted_name = 0 ∷ 0 ∷ 0 ∷ 0 ∷ 0 ∷ 0 ∷ 0 ∷ 0 ∷ 0 ∷ 0 ∷ 0 ∷ 0 ∷ name

aes_decrypt-aes_encrypt_example :
    (aes_decrypt open_crypto (bytes "0123456789abcdef") encrypted_name app tt).0 ≡ ok name
unfolding aes_encrypt
aes_decrypt-aes_encrypt_example =
    aes_decrypt-aes_encrypt open_crypto open_crypto-IsCrypto (bytes "0123456789abcdef") name app tt
      refl tt
