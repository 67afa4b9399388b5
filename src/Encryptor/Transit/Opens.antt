-- ===== src/Encryptor/Transit/Opens.antt =====
-- The transit encryptor decrypts what it has encrypted.
use kaigara.Base.{◌≡◌, Str, [], ◌∷◌, ◌++◌, bytes}
use kaigara.Base.Exec.{ok, >>=-eq-ok, missing_ciphertext}
use kaigara.Value.{text}
use kaigara.Vault.{Client, Base64, string_field, string_field-eq-ok, IsTransit}
use kaigara.Encryptor.Transit.{create_transit_key_if_not_exist, transit_encrypt, transit_decrypt}

module _ (C : Client) (B : Base64) (transit : IsTransit C B) where
  -- What was encrypted for an application decrypts for it to the plaintext, at every later state of Vault
  -- at which the check that the key exists succeeds, if Vault's transit engine decrypts what it has
  -- encrypted.
  pub transit_decrypt-transit_encrypt :
      (p app : Str) {c : Str} (w later : C.World)
      → (transit_encrypt C B p app w).0 ≡ ok c
      → (create_transit_key_if_not_exist C B app later).0 ≡ ok tt
      → (transit_decrypt C B c app later).0 ≡ ok p
  unfolding transit_encrypt transit_decrypt string_field
  transit_decrypt-transit_encrypt p app {c} w later h ready =
      let (_, made, h₁) = >>=-eq-ok (create_transit_key_if_not_exist C B app) _ w h in
      let u = (create_transit_key_if_not_exist C B app w).1 in
      let (r, sent, h₂) =
        >>=-eq-ok
          (C.logical_write (bytes "transit/encrypt/" ++ app)
            ((bytes "plaintext", text (B.encode p)) ∷ []))
          _ u h₁ in
      let (fields, is, found) = string_field-eq-ok (bytes "ciphertext") missing_ciphertext r h₂ in
      let (answer, back, has) =
        transit.decrypts app p c fields u (create_transit_key_if_not_exist C B app later).1
          (rw is at sent) found in
      rw (ready, back, string_field, has, transit.decode-encode)
