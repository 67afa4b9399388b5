-- ===== src/Encryptor/Transit.antt =====
-- pkg/encryptor/transit/transit.go: encryption by the transit engine of Vault. The renewal of the token
-- is left out.
pub mod Opens
use kaigara.Base.{Bool, true, false, Option, none, some, [], ◌∷◌, ◌++◌, Str, bytes}
use kaigara.Base.Dict.{Dict}
use kaigara.Base.Exec.{Exec, pure, lift, ◌>>=◌, ◌>>◌, missing_ciphertext, missing_plaintext}
use kaigara.Value.{Value, text, bool}
use kaigara.Vault.{Client, Base64, string_field}
use kaigara.Encryptor.Interface.{Encryptor}

module _ (C : Client) (B : Base64) where
  abbrev is_some : Option (Dict Value) → Bool
  is_some none = false
  is_some (some _) = true

  unfoldable pub transit_key_exists : Str → Exec C.World Bool
  transit_key_exists app = do
    secret ← C.logical_read (bytes "transit/keys/" ++ app)
    pure (is_some secret)

  unfoldable pub transit_key_create : Str → Exec C.World (Unit {0})
  transit_key_create app = do
    C.logical_write (bytes "transit/keys/" ++ app) ((bytes "force", bool true) ∷ [])
    pure tt

  abbrev unless_exists : Bool → Exec C.World (Unit {0}) → Exec C.World (Unit {0})
  unless_exists true create = pure tt
  unless_exists false create = create

  unfoldable pub create_transit_key_if_not_exist : Str → Exec C.World (Unit {0})
  unfolding transit_key_exists transit_key_create
  create_transit_key_if_not_exist app = do
    exists ← transit_key_exists app
    unless_exists exists (transit_key_create app)

  unfoldable pub transit_encrypt : Str → Str → Exec C.World Str
  unfolding create_transit_key_if_not_exist string_field
  transit_encrypt plaintext app = do
    create_transit_key_if_not_exist app
    secret ←
        C.logical_write (bytes "transit/encrypt/" ++ app)
          ((bytes "plaintext", text (B.encode plaintext)) ∷ [])
    lift (string_field (bytes "ciphertext") missing_ciphertext secret)

  unfoldable pub transit_decrypt : Str → Str → Exec C.World Str
  unfolding create_transit_key_if_not_exist string_field
  transit_decrypt ciphertext app = do
    create_transit_key_if_not_exist app
    secret ←
        C.logical_write (bytes "transit/decrypt/" ++ app)
          ((bytes "ciphertext", text ciphertext) ∷ [])
    encoded ← lift (string_field (bytes "plaintext") missing_plaintext secret)
    lift (B.decode encoded)

  abbrev pub transit_encryptor : Encryptor
  transit_encryptor = record {
    World = C.World;
    encrypt = transit_encrypt;
    decrypt = transit_decrypt;
  }
