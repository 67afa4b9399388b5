-- ===== src/Vault/KvStore.antt =====
-- Vault's KV engine, as far as what is written stays there.
use kaigara.Base.{◌≡◌, Option, some, [], ◌∷◌, ◌++◌, bytes, Str}
use kaigara.Base.Dict
use kaigara.Base.Dict.{Dict, NodupKeys}
use kaigara.Base.Exec.{ok}
use kaigara.Value.{Value, text, mapping, Fields}
use kaigara.Vault.{Client}
use kaigara.Storage.Response.{entries_of_fields}

-- The KV engine, version 2, as a store: a secret that was written without an error is kept until it is
-- written again, and read back as JSON delivers it, with its metadata. Reads, and writes to the transit
-- engine, change no secret.
pub record IsKvStore (C : Client) : Type 0 where
  pub data_at : C.World → Str → Option Value
  -- A value once it has been through JSON, of which a text is the same, and a map has the same keys.
  pub delivered : Value → Value
  pub delivered_text : (s : Str) → delivered (text s) ≡ text s
  pub delivered_mapping :
      (fs : Fields)
      → NodupKeys (entries_of_fields fs)
      → (gs : Fields) × (delivered (mapping fs) ≡ mapping gs)
        × ((k : Str) (v : Value)
            → Dict.lookup k (entries_of_fields fs) ≡ some v
            → Dict.lookup k (entries_of_fields gs) ≡ some (delivered v))
  pub keeps_written :
      (secret : Str) (v : Value) (r : Option (Dict Value)) (w : C.World)
      → (C.logical_write (bytes "secret/data/" ++ secret) ((bytes "data", v) ∷ []) w).0 ≡ ok r
      → data_at
          (C.logical_write (bytes "secret/data/" ++ secret) ((bytes "data", v) ∷ []) w).1
          secret
        ≡ some (delivered v)
  pub reads_back :
      (secret : Str) (v : Value) (w : C.World)
      → data_at w secret ≡ some v
      → (fields : Dict Value) × (ms : Fields) × ((C.logical_read
            (bytes "secret/data/" ++ secret)
            w).0
          ≡ ok (some fields))
        × (Dict.lookup (bytes "data") fields ≡ some v)
        × (Dict.lookup (bytes "metadata") fields ≡ some (mapping ms))
  pub keeps_read :
      (path secret : Str) (w : C.World)
      → data_at (C.logical_read path w).1 secret ≡ data_at w secret
  pub keeps_transit :
      (path secret : Str) (fields : Dict Value) (w : C.World)
      → data_at (C.logical_write (bytes "transit/" ++ path) fields w).1 secret ≡ data_at w secret
