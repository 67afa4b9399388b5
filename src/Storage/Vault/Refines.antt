-- ===== src/Storage/Vault/Refines.antt =====
-- The Vault service keeps what a storage promises of its entries, whatever Vault encrypts.
use kaigara.Base.{
  ◌≡◌, refl, sym, ◌∙◌, true, false, Option, none, some, List, Str, arith, str_eq, Bool-cases, ◌⊎◌,
  inl, inr,
}
use kaigara.Base.Dict
use kaigara.Base.Exec.{ok}
use kaigara.Value.{Value, text}
use kaigara.Vault.{Client, Base64, IsTransit}
use kaigara.Storage.Plain.{Plain, update, Command, run, replay, Implements, run_refines}
use kaigara.Storage.Plain.Raw.{
  Counterpart-cases, RawRepresents, same-RawRepresents, update-RawRepresents,
}
use kaigara.Storage.Sql.{entries_of}
use kaigara.Storage.Vault.{
  Service, vault_storage, transit_scope, assign, encrypt, decrypt, set_entry, decrypt_raw,
  get_entry, delete_entry,
}
use kaigara.Storage.Vault.SetGet.{assign-eq-ok, set_entry_secret, set_entry_other, decrypt-encrypt}
use kaigara.Storage.Vault.Entries.{
  kept, kept-assign, kept-delete_entry, kept-Same, get_entry-Same, update-Same, encrypt-Same,
}

module _ {C : Client} (B : Base64) where
  -- What is kept for a value: itself or, in the secret scope, a text that Vault decrypts to its text for
  -- the application, under the deployment.
  abbrev pub StandsFor : Service C → Str → Str → Str → Value → Value → Type 0
  StandsFor s app scope name r v =
      ((str_eq scope transit_scope ≡ false) × (r ≡ v))
      ⊎ ((str_eq scope transit_scope ≡ true)
          × (p : Str) × (c : Str) × (v ≡ text p)
          × (r ≡ text c)
          × ((t : Service C) → t.deployment_id ≡ s.deployment_id → (decrypt B app c t).0 ≡ ok p))

  -- Every entry that is kept stands for the one of the map, and there are no others.
  abbrev pub Represents : Service C → Plain → Type 0
  Represents = RawRepresents kept StandsFor

  pub StandsFor-same :
      (s t : Service C) (app scope name : Str) (r v : Value)
      → t.deployment_id ≡ s.deployment_id
      → StandsFor s app scope name r v
      → StandsFor t app scope name r v
  StandsFor-same s t app scope name r v same (inl h) = inl h
  StandsFor-same s t app scope name r v same (inr (e, p, c, is, raw, opens)) =
      inr (e, p, c, is, raw, λ u id. opens u (id ∙ same))

  -- An entry that is kept for a value gives that value.
  pub get_kept :
      (app scope name : Str) (r v : Value) (s : Service C)
      → kept s app scope name ≡ some r
      → StandsFor s app scope name r v
      → (get_entry B app scope name s).0 ≡ ok (some v)
  unfolding kept get_entry entries_of decrypt_raw Dict.lookup
  get_kept app scope name r v s found (inl (e, is)) = ground arith
  get_kept app scope name r v s found (inr (e, p, c, is, raw, opens)) = ground (arith, opens s refl)

  get_missing :
      (app scope name : Str) (answer : Option Value) (s : Service C)
      → kept s app scope name ≡ none
      → (get_entry B app scope name s).0 ≡ ok answer
      → answer ≡ none
  unfolding kept get_entry entries_of decrypt_raw
  get_missing app scope name answer s missing h = ground arith

  module _ (transit : IsTransit C B) where
    -- What SetEntry keeps.
    pub kept-set_entry :
        (app scope name : Str) (v : Value) (s : Service C)
        → (set_entry B app scope name v s).0 ≡ ok tt
        → let t = (set_entry B app scope name v s).1 in
          (r : Value) × StandsFor t app scope name r v
          × (t.deployment_id ≡ s.deployment_id)
          × ((app' scope' name' : Str)
              → kept t app' scope' name'
                ≡ update app scope name (some r) (kept s) app' scope' name')
    kept-set_entry app scope name v s h = elim (Bool-cases (str_eq scope transit_scope)) [
      | inl e ↦
          let (p, c, is, sealed, step) = set_entry_secret B transit app scope name v s e h in
          let u = (encrypt B app p s).1 in
          let done = rw step at h in
          let (m, _, stored) = assign-eq-ok app scope name (text c) u done in
          let id : (assign app scope name (text c) u).1.deployment_id ≡ s.deployment_id =
            rw stored (encrypt-Same B app p s).1 in
          rw step (
            text c,
            inr (
              e,
              p,
              c,
              is,
              refl,
              λ t same. decrypt-encrypt B transit app p s t (same ∙ id) sealed,
            ),
            id,
            λ app' scope' name'.
                kept-assign app scope name (text c) u done app' scope' name'
                ∙ update-Same s u app scope name (some (text c)) (encrypt-Same B app p s) app'
                    scope' name',
          )
      | inr e ↦
          let step = set_entry_other B transit app scope name v s e in
          let done = rw step at h in
          let (m, _, stored) = assign-eq-ok app scope name v s done in
          rw step (v, inl (e, refl), rw stored refl, kept-assign app scope name v s done)
    ]

    set_entry-Represents :
        (app scope name : Str) (v : Value) (s : Service C) (m : Plain)
        → Represents s m
        → (set_entry B app scope name v s).0 ≡ ok tt
        → Represents (set_entry B app scope name v s).1 (update app scope name (some v) m)
    set_entry-Represents app scope name v s m h done =
        let (r, stands, id, step) = kept-set_entry app scope name v s done in
        let t = (set_entry B app scope name v s).1 in
        update-RawRepresents kept StandsFor app scope name (some r) (some v) s t m step stands
          (λ app' scope' name' r' v'. StandsFor-same s t app' scope' name' r' v' id) h

    delete_entry-Represents :
        (app scope name : Str) (s : Service C) (m : Plain)
        → Represents s m
        → (delete_entry app scope name s).0 ≡ ok tt
        → Represents (delete_entry app scope name s).1 (update app scope name none m)
    delete_entry-Represents app scope name s m h done =
        let (step, id) = kept-delete_entry app scope name s done in
        let t = (delete_entry app scope name s).1 in
        update-RawRepresents kept StandsFor app scope name none none s t m step tt
          (λ app' scope' name' r' v'. StandsFor-same s t app' scope' name' r' v' id) h

    get_entry-Represents :
        (app scope name : Str) (answer : Option Value) (s : Service C) (m : Plain)
        → Represents s m
        → (get_entry B app scope name s).0 ≡ ok answer
        → (answer ≡ m app scope name) × Represents (get_entry B app scope name s).1 m
    get_entry-Represents app scope name answer s m h done =
        let same = get_entry-Same B app scope name s in
        let t = (get_entry B app scope name s).1 in
        (
          elim (Counterpart-cases kept StandsFor s app scope name _ _ (h app scope name)) [
            | inl (d, e) ↦ get_missing app scope name answer s d done ∙ sym e
            | inr (r, v, d, e, stands) ↦ ground (arith, get_kept app scope name r v s d stands)
          ],
          same-RawRepresents kept StandsFor s t m (kept-Same s t same)
              (λ app' scope' name' r v. StandsFor-same s t app' scope' name' r v same.1) h,
        )

    vault_storage-Implements : Implements (vault_storage C B) Represents
    vault_storage-Implements = record {
      sets = set_entry-Represents;
      gets = get_entry-Represents;
      deletes = delete_entry-Represents;
    }

    -- The encryption by Vault cannot be seen: if its transit engine decrypts what it has encrypted, every
    -- run of SetEntry, GetEntry and DeleteEntry that succeeds answers as a map of plain values does, and at
    -- its end the service represents that map.
    pub vault_run_refines :
        (commands : List Command) (answers : List (Option Value)) (s : Service C) (m : Plain)
        → Represents s m
        → (run (vault_storage C B) commands s).0 ≡ ok answers
        → (answers ≡ (replay commands m).0)
          × Represents (run (vault_storage C B) commands s).1 (replay commands m).1
    vault_run_refines = run_refines (vault_storage C B) Represents vault_storage-Implements
