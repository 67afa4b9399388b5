-- ===== src/Encryptor/Plaintext.antt =====
-- pkg/encryptor/plaintext/plaintext.go
use kaigara.Base.{◌≡◌, Str, [], ◌∷◌, arith}
use kaigara.Base.Exec.{Exec, ok, pure, fail, empty_plaintext, empty_ciphertext}
use kaigara.Encryptor.Interface.{Encryptor, IsFaithful}

unfoldable pub plaintext_encrypt : Str → Str → Exec (Unit {0}) Str
plaintext_encrypt [] app = fail empty_plaintext
plaintext_encrypt (c ∷ p) app = pure (c ∷ p)

unfoldable pub plaintext_decrypt : Str → Str → Exec (Unit {0}) Str
plaintext_decrypt [] app = fail empty_ciphertext
plaintext_decrypt (c ∷ p) app = pure (c ∷ p)

abbrev pub plaintext_encryptor : Encryptor
plaintext_encryptor = record {
  World = Unit {0};
  encrypt = plaintext_encrypt;
  decrypt = plaintext_decrypt;
}

-- A text that the plaintext encryptor accepts decrypts to itself.
pub plaintext_decrypt-plaintext_encrypt :
    (p app : Str) {c : Str} (w : Unit {0})
    → (plaintext_encrypt p app w).0 ≡ ok c
    → (later : Unit {0}) → (plaintext_decrypt c app later).0 ≡ ok p
unfolding plaintext_encrypt plaintext_decrypt
plaintext_decrypt-plaintext_encrypt [] app w h later = ground arith
plaintext_decrypt-plaintext_encrypt (d ∷ p) app {c = []} w h later = ground arith
plaintext_decrypt-plaintext_encrypt (d ∷ p) app {c = e ∷ c} w h later = ground arith

-- The encryptor interface is filled.
pub plaintext_encryptor-IsFaithful : IsFaithful plaintext_encryptor
plaintext_encryptor-IsFaithful = record { opens = plaintext_decrypt-plaintext_encrypt }
