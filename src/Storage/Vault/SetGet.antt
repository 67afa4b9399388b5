-- ===== src/Storage/Vault/SetGet.antt =====
-- SetEntry against GetEntry, on the Vault service.
use kaigara.Base.{
  ◌≡◌, refl, ◌∙◌, true, false, some, Str, [], ◌∷◌, ◌++◌, bytes, arith, str_eq, Option-cases,
  Bool-cases, inl, inr,
}
use kaigara.Base.Dict
use kaigara.Base.Dict.{Dict}
use kaigara.Base.Exec.{ok, >>=-eq-ok, missing_ciphertext}
use kaigara.Value.{Value, text}
use kaigara.Vault.{Client, Base64, string_field, string_field-eq-ok, IsTransit}
use kaigara.Storage.Memory.{scope_of, scope_of-set_scope_self}
use kaigara.Storage.Vault.{
  Service, transit_scope, transit_key_name, call, put_data, assign, encrypt, decrypt, set_secret,
  set_entry, decrypt_raw, get_entry,
}

module _ {C : Client} where
  -- What a call leaves but for the world of the client.
  abbrev pub at_world : C.World → Service C → Service C
  at_world w s = record s { world = w }

  pub assign-eq-ok :
      (app scope name : Str) (v : Value) (s : Service C)
      → (assign app scope name v s).0 ≡ ok tt
      → (m : Dict Value) × (scope_of app scope s.scope_data ≡ some m)
        × (assign app scope name v s ≡ (ok tt, put_data app scope (Dict.insert name v m) s))
  unfolding assign
  assign-eq-ok app scope name v s h = elim (Option-cases (scope_of app scope s.scope_data)) [
    | inl e ↦ ground arith
    | inr (m, e) ↦ (m, e, rw (e, assign))
  ]

  module _ (B : Base64) (transit : IsTransit C B) where
    -- A text that the service has encrypted for an application, it decrypts for that application.
    pub decrypt-encrypt :
        (app p : Str) {c : Str} (s t : Service C)
        → t.deployment_id ≡ s.deployment_id
        → (encrypt B app p s).0 ≡ ok c
        → (decrypt B app c t).0 ≡ ok p
    unfolding encrypt decrypt transit_key_name string_field
    decrypt-encrypt app p {c} s t same h =
        let key = s.deployment_id ++ (bytes "_kaigara_" ++ app) in
        let (r, sent, h₁) =
          >>=-eq-ok
            (call (λ (u : Service C).
              C.logical_write (bytes "transit/encrypt/" ++ transit_key_name app u)
                ((bytes "plaintext", text (B.encode p)) ∷ [])))
            _ s h in
        let (fields, is, found) = string_field-eq-ok (bytes "ciphertext") missing_ciphertext r h₁ in
        let (answer, back, has) =
          transit.decrypts key p c fields s.world t.world (rw is at sent) found in
        rw (same, back, string_field, has, transit.decode-encode)

    get_other :
        (app scope name : Str) (v : Value) (m : Dict Value) (s : Service C)
        → str_eq scope transit_scope ≡ false
        → (get_entry B app scope name (put_data app scope (Dict.insert name v m) s)).0 ≡ ok (some v)
    unfolding get_entry
    get_other app scope name v m s e = ground (
      arith,
      scope_of-set_scope_self app scope (Dict.insert name v m) s.scope_data,
      Dict.lookup-insert_self name v m,
    )

    get_secret :
        (app scope name p c : Str) (m : Dict Value) (s : Service C)
        → str_eq scope transit_scope ≡ true
        → ((t : Service C) → t.deployment_id ≡ s.deployment_id → (decrypt B app c t).0 ≡ ok p)
        → (get_entry B app scope name (put_data app scope (Dict.insert name (text c) m) s)).0
          ≡ ok (some (text p))
    unfolding get_entry decrypt_raw
    get_secret app scope name p c m s e opens =
        let t = put_data app scope (Dict.insert name (text c) m) s in
        ground (
          arith,
          scope_of-set_scope_self app scope (Dict.insert name (text c) m) s.scope_data,
          Dict.lookup-insert_self name (text c) m,
          opens t refl,
        )

    -- What SetEntry does on the two kinds of scope.
    pub set_entry_secret :
        (app scope name : Str) (v : Value) (s : Service C)
        → str_eq scope transit_scope ≡ true
        → (set_entry B app scope name v s).0 ≡ ok tt
        → (p c : Str) × (v ≡ text p)
          × ((encrypt B app p s).0 ≡ ok c)
          × (set_entry B app scope name v s ≡ assign app scope name (text c) (encrypt B app p s).1)
    unfolding set_entry set_secret
    set_entry_secret app scope name (text p) s e h =
        let step : set_entry B app scope name (text p) s ≡ set_secret B app scope name (text p) s =
          rw (e, set_entry) in
        let (c, sealed, rest) =
          >>=-eq-ok (encrypt B app p) (λ c. assign app scope name (text c)) s (rw step at h) in
        (p, c, refl, sealed, step ∙ rw (sealed, set_secret))
    set_entry_secret app scope name _ s e h = ground arith

    pub set_entry_other :
        (app scope name : Str) (v : Value) (s : Service C)
        → str_eq scope transit_scope ≡ false
        → set_entry B app scope name v s ≡ assign app scope name v s
    unfolding set_entry
    set_entry_other app scope name v s e = rw (e, set_entry)

    pub encrypt-deployment_id :
        (app p : Str) (s : Service C) → (encrypt B app p s).1.deployment_id ≡ s.deployment_id
    unfolding encrypt
    encrypt-deployment_id app p s = ground arith

    -- After a SetEntry that succeeds, GetEntry of the same entry succeeds and returns the value that was
    -- set, also where Vault has encrypted it in between, if Vault's transit engine decrypts what it has
    -- encrypted.
    pub vault_get_entry-set_entry :
        (app scope name : Str) (v : Value) (s : Service C)
        → (set_entry B app scope name v s).0 ≡ ok tt
        → (get_entry B app scope name (set_entry B app scope name v s).1).0 ≡ ok (some v)
    vault_get_entry-set_entry app scope name v s h =
        elim (Bool-cases (str_eq scope transit_scope)) [
          | inl e ↦
              let (p, c, is, sealed, step) = set_entry_secret app scope name v s e h in
              let u = (encrypt B app p s).1 in
              let (m, _, stored) = assign-eq-ok app scope name (text c) u (rw step at h) in
              rw (step, stored, is)
                (get_secret app scope name p c m u e (λ t same.
                  decrypt-encrypt app p s t (same ∙ encrypt-deployment_id app p s) sealed))
          | inr e ↦
              let step = set_entry_other app scope name v s e in
              let (m, _, stored) = assign-eq-ok app scope name v s (rw step at h) in
              rw (step, stored) (get_other app scope name v m s e)
        ]
