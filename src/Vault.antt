-- ===== src/Vault.antt =====
-- github.com/hashicorp/vault/api and base64, as the encryptor and the storage call them.
pub mod Token
pub mod KvStore
use kaigara.Base.{bytes, [], ◌∷◌, ◌++◌, refl, arith, ◌≡◌, Option, none, some, Str}
use kaigara.Base.Dict
use kaigara.Base.Dict.{Dict}
use kaigara.Base.Exec.{Exec, Outcome, ok, err, panic, Error, nil_dereference, bad_assertion}
use kaigara.Value.{Value, text, json_number}

-- The logical backend of a client. A response is nil or a Secret, of which the field Data is used.
pub record Client : Type 1 where
  pub World : Type 0
  pub logical_read : Str → Exec World (Option (Dict Value))
  pub logical_write : Str → Dict Value → Exec World (Option (Dict Value))
  pub logical_list : Str → Exec World (Option (Dict Value))
  pub logical_delete : Str → Exec World (Option (Dict Value))

-- base64.URLEncoding
pub record Base64 : Type 0 where
  pub encode : Str → Str
  pub decode : Str → Outcome Str

-- The assertion to a string of a field that may be missing: a value that is no string panics.
abbrev field_text : Error → Option Value → Outcome Str
field_text missing none = err missing
field_text missing (some (text s)) = ok s
field_text missing (some _) = panic bad_assertion

-- `secret.Data[name]` and the assertion to a string; a nil Secret cannot be dereferenced.
unfoldable pub string_field : Str → Error → Option (Dict Value) → Outcome Str
string_field name missing none = panic nil_dereference
string_field name missing (some fields) = field_text missing (Dict.lookup name fields)

field_text-eq-ok :
    (missing : Error) (v : Option Value) {c : Str} → field_text missing v ≡ ok c → v ≡ some (text c)
field_text-eq-ok missing (some (text s)) h = ground arith
field_text-eq-ok missing none h = ground arith
field_text-eq-ok missing (some _) h = ground arith

-- string_field gives a text only where the Secret has it.
pub string_field-eq-ok :
    (name : Str) (missing : Error) (r : Option (Dict Value)) {c : Str}
    → string_field name missing r ≡ ok c
    → (fields : Dict Value) × (r ≡ some fields) × (Dict.lookup name fields ≡ some (text c))
unfolding string_field
string_field-eq-ok name missing none h = ground arith
string_field-eq-ok name missing (some fields) h = (fields, refl, field_text-eq-ok missing _ h)

-- The transit engine: what it has encrypted under a key, it decrypts under that key, and base64 decodes
-- what it has encoded.
pub record IsTransit (C : Client) (B : Base64) : Type 0 where
  pub decrypts :
      (key p c : Str) (fields : Dict Value) (w later : C.World)
      → (C.logical_write
          (bytes "transit/encrypt/" ++ key)
          ((bytes "plaintext", text (B.encode p)) ∷ [])
          w).0
        ≡ ok (some fields)
      → Dict.lookup (bytes "ciphertext") fields ≡ some (text c)
      → (answer : Dict Value) × ((C.logical_write
            (bytes "transit/decrypt/" ++ key)
            ((bytes "ciphertext", text c) ∷ [])
            later).0
          ≡ ok (some answer))
        × (Dict.lookup (bytes "plaintext") answer ≡ some (text (B.encode p)))
  pub decode-encode : (s : Str) → B.decode (B.encode s) ≡ ok s

-- The KV engine, version 2: the response to a write of a secret names the version that it has made, and
-- the metadata of the secret then has it as the current one.
pub record IsKv (C : Client) : Type 0 where
  pub versions :
      (secret : Str) (v : Value) (r : Option (Dict Value)) (w : C.World)
      → (C.logical_write (bytes "secret/data/" ++ secret) ((bytes "data", v) ∷ []) w).0 ≡ ok r
      → (n : Str) × (fields : Dict Value) × (meta : Dict Value) × (r ≡ some fields)
        × (Dict.lookup (bytes "version") fields ≡ some (json_number n))
        × ((C.logical_read
              (bytes "secret/metadata/" ++ secret)
              (C.logical_write (bytes "secret/data/" ++ secret) ((bytes "data", v) ∷ []) w).1).0
            ≡ ok (some meta))
        × (Dict.lookup (bytes "current_version") meta ≡ some (json_number n))
