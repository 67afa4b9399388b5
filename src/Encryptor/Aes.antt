-- ===== src/Encryptor/Aes.antt =====
-- pkg/encryptor/aes/aes.go. Go's crypto packages and base64 are the parameter `Crypto`.
use kaigara.Base.{ℕ, ◌≡◌, Str, not, ◌&&◌, ◌++◌, arith}
use kaigara.Base.{
  length, take, drop, take-append, drop-append, length-append, ltb, ◌==◌, if◌then◌else◌,
}
use kaigara.Base.Exec.{
  Exec, Outcome, ok, err, pure, lift, >>=-eq-ok, ◌>>=◌, ◌>>◌, key_length, short_ciphertext,
}
use kaigara.Encryptor.Interface.{Encryptor, IsFaithful}

-- crypto/aes and crypto/cipher (AES in GCM mode), crypto/rand and encoding/base64.
pub record Crypto : Type 1 where
  pub Entropy : Type 0
  -- io.ReadFull(rand.Reader, nonce) of so many bytes
  pub random : ℕ → Exec Entropy Str
  -- the checks of aes.NewCipher and cipher.NewGCM
  pub new_aead : Str → Outcome (Unit {0})
  pub nonce_size : ℕ
  pub seal : Str → Str → Str → Str
  pub open_sealed : Str → Str → Str → Outcome Str
  pub encode : Str → Str
  pub decode : Str → Outcome Str

-- The documented behaviour that the encryptor relies on.
pub record IsCrypto (C : Crypto) : Type 0 where
  pub random_length : (n : ℕ) (w : C.Entropy) {r : Str} → (C.random n w).0 ≡ ok r → length r ≡ n
  pub decode-encode : (s : Str) → C.decode (C.encode s) ≡ ok s
  pub open-seal : (key nonce p : Str) → C.open_sealed key nonce (C.seal key nonce p) ≡ ok p

-- NewAESEncryptor: the encryptor is its key.
unfoldable pub new_aes_encryptor : Str → Outcome Str
new_aes_encryptor key =
    if not (length key == 16) && (not (length key == 24) && not (length key == 32))
    then err key_length
    else ok key

module _ (C : Crypto) where
  -- `Seal(nonce, nonce, …)` appends the sealed text to the nonce.
  unfoldable pub aes_encrypt : Str → Str → Str → Exec C.Entropy Str
  aes_encrypt key plaintext app = do
    lift (C.new_aead key)
    nonce ← C.random C.nonce_size
    pure (C.encode (nonce ++ C.seal key nonce plaintext))

  unfoldable pub aes_open : Str → Str → Outcome Str
  aes_open key encrypt_data =
      if ltb (length encrypt_data) C.nonce_size
      then err short_ciphertext
      else C.open_sealed key (take C.nonce_size encrypt_data) (drop C.nonce_size encrypt_data)

  unfoldable pub aes_decrypt : Str → Str → Str → Exec C.Entropy Str
  unfolding aes_open
  aes_decrypt key ciphertext app = do
    encrypt_data ← lift (C.decode ciphertext)
    lift (C.new_aead key)
    lift (aes_open key encrypt_data)

  abbrev pub aes_encryptor : Str → Encryptor
  aes_encryptor key = record {
    World = C.Entropy;
    encrypt = aes_encrypt key;
    decrypt = aes_decrypt key;
  }

  module _ (L : IsCrypto C) (key : Str) where
    aes_open_of_nonce :
        (nonce p : Str)
        → length nonce ≡ C.nonce_size
        → aes_open key (nonce ++ C.seal key nonce p) ≡ ok p
    unfolding aes_open
    aes_open_of_nonce nonce p h =
        rw (← h, take-append, drop-append)
          (ground (arith, length-append nonce (C.seal key nonce p), L.open-seal key nonce p))

    -- What was encrypted with a key decrypts with that key to the plaintext, for every application and at
    -- every later state of the random source, if the AEAD opens what it sealed, base64 decodes what it
    -- encoded and the random source returns as many bytes as it is asked for.
    pub aes_decrypt-aes_encrypt :
        (p app : Str) {c : Str} (w : C.Entropy)
        → (aes_encrypt key p app w).0 ≡ ok c
        → (later : C.Entropy) → (aes_decrypt key c app later).0 ≡ ok p
    unfolding aes_encrypt aes_decrypt
    aes_decrypt-aes_encrypt p app {c} w h later =
        let (_, keyed, h₁) = >>=-eq-ok (lift (C.new_aead key)) _ w h in
        let (nonce, drawn, h₂) = >>=-eq-ok (C.random C.nonce_size) _ w h₁ in
        ground (
          arith,
          aes_open_of_nonce nonce p (L.random_length C.nonce_size w drawn),
          L.decode-encode (nonce ++ C.seal key nonce p),
        )

    -- The encryptor interface is filled.
    pub aes_encryptor-IsFaithful : IsFaithful (aes_encryptor key)
    aes_encryptor-IsFaithful = record { opens = aes_decrypt-aes_encrypt }
