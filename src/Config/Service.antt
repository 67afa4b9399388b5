-- ===== src/Config/Service.antt =====
-- KaigaraConfig and GetStorageService of pkg/config/config.go: which storage, on which encryptor. The
-- constructors of the services stand for what they connect to.
use kaigara.Base.{
  ◌≡◌, ◌≢◌, refl, [], ◌∷◌, Str, bytes, str_eq, str_eq_iff, arith, length, if◌then◌else◌, ◌⊎◌, inl,
  inr, Bool-cases,
}
use kaigara.Base.Exec.{
  Outcome, Outcome-cases, ok, err, panic, of_error, missing_token, missing_deployment,
  unsupported_store,
}
use kaigara.Encryptor.Aes.{new_aes_encryptor}

-- The configuration, less the level of the logs and the database.
pub record KaigaraConfig : Type 0 where
  pub app_names : Str
  pub scopes : Str
  pub storage : Str
  pub vault_token : Str
  pub vault_addr : Str
  pub deployment_id : Str
  pub encrypt_method : Str
  pub aes_key : Str

pub data EncryptorKind : Type 0 where
  transit : Str → Str → EncryptorKind
  aes : Str → EncryptorKind
  plaintext : EncryptorKind

pub data StorageKind : Type 0 where
  vault_service : Str → Str → Str → StorageKind
  sql_service : Str → EncryptorKind → StorageKind

unfoldable pub or_default_addr : Str → Str
or_default_addr [] = bytes "http://localhost:8200"
or_default_addr (c ∷ addr) = c ∷ addr

abbrev after {ℓ} : {A : Type ℓ} → Outcome (Unit {0}) → A → Outcome A
after (ok _) a = ok a
after (err e) a = err e
after (panic p) a = panic p

-- `if err != nil { panic(err) }`, after the client was made and its token looked up
abbrev or_panic : Outcome (Unit {0}) → Outcome (Unit {0})
or_panic (ok _) = ok tt
or_panic (err e) = panic (of_error e)
or_panic (panic p) = panic p

abbrev as_aes : Outcome Str → Outcome EncryptorKind
as_aes (ok key) = ok (aes key)
as_aes (err e) = err e
as_aes (panic p) = panic p

new_aes_encryptor_lem :
    (key k : Str)
    → new_aes_encryptor key ≡ ok k
    → (k ≡ key) × ((length key ≡ 16) ⊎ ((length key ≡ 24) ⊎ (length key ≡ 32)))
unfolding new_aes_encryptor
new_aes_encryptor_lem key k h = ground arith

-- `connect` is the making of a Vault client for an address and a token, with the lookup of the token;
-- `open_database` connects to the database of a deployment and migrates it.
module _ (connect : Str → Str → Outcome (Unit {0})) (open_database : Str → Outcome (Unit {0})) where
  unfoldable pub new_vault_encryptor : Str → Str → Outcome EncryptorKind
  unfolding or_default_addr
  new_vault_encryptor addr [] = panic missing_token
  new_vault_encryptor addr (c ∷ token) =
      after (or_panic (connect (or_default_addr addr) (c ∷ token)))
        (transit (or_default_addr addr) (c ∷ token))

  unfoldable pub new_vault_service : Str → Str → Str → Outcome StorageKind
  unfolding or_default_addr
  new_vault_service addr [] deployment = panic missing_token
  new_vault_service addr (c ∷ token) [] = panic missing_deployment
  new_vault_service addr (c ∷ token) (d ∷ deployment) =
      after (or_panic (connect (or_default_addr addr) (c ∷ token)))
        (vault_service (or_default_addr addr) (c ∷ token) (d ∷ deployment))

  unfoldable pub new_encryptor : KaigaraConfig → Outcome EncryptorKind
  unfolding new_vault_encryptor new_aes_encryptor
  new_encryptor cnf =
      if str_eq cnf.encrypt_method (bytes "transit")
      then new_vault_encryptor cnf.vault_addr cnf.vault_token
      else (if str_eq cnf.encrypt_method (bytes "aes")
          then as_aes (new_aes_encryptor cnf.aes_key)
          else ok plaintext)

  unfoldable pub new_storage : KaigaraConfig → EncryptorKind → Outcome StorageKind
  unfolding new_vault_service
  new_storage cnf encryptor =
      if str_eq cnf.storage (bytes "vault")
      then new_vault_service cnf.vault_addr cnf.vault_token cnf.deployment_id
      else (if str_eq cnf.storage (bytes "sql")
          then after (open_database cnf.deployment_id) (sql_service cnf.deployment_id encryptor)
          else err (unsupported_store cnf.storage))

  unfoldable pub get_storage_service : KaigaraConfig → Outcome StorageKind
  unfolding new_encryptor new_storage
  get_storage_service cnf = elim (new_encryptor cnf) [
    | ok e ↦ new_storage cnf e
    | err e ↦ err e
    | panic p ↦ panic p
  ]

  -- The method that an encryptor stands for.
  abbrev pub MethodOf : EncryptorKind → KaigaraConfig → Type 0
  MethodOf (transit addr token) cnf =
      (cnf.encrypt_method ≡ bytes "transit") × (token ≡ cnf.vault_token) × (token ≢ [])
  MethodOf (aes key) cnf =
      (cnf.encrypt_method ≡ bytes "aes")
      × (key ≡ cnf.aes_key)
      × ((length key ≡ 16) ⊎ ((length key ≡ 24) ⊎ (length key ≡ 32)))
  MethodOf plaintext cnf =
      (cnf.encrypt_method ≢ bytes "transit") × (cnf.encrypt_method ≢ bytes "aes")

  new_vault_encryptor_lem :
      (addr token : Str) (e : EncryptorKind)
      → new_vault_encryptor addr token ≡ ok e
      → (e ≡ transit (or_default_addr addr) token) × (token ≢ [])
  unfolding new_vault_encryptor
  new_vault_encryptor_lem addr [] e h = ground arith
  new_vault_encryptor_lem addr (c ∷ token) e h = ground arith

  new_encryptor-MethodOf :
      (cnf : KaigaraConfig) (e : EncryptorKind) → new_encryptor cnf ≡ ok e → MethodOf e cnf
  unfolding new_encryptor new_aes_encryptor
  new_encryptor-MethodOf cnf (transit addr token) h = ground (
    arith,
    new_vault_encryptor_lem cnf.vault_addr cnf.vault_token (transit addr token),
    str_eq_iff cnf.encrypt_method (bytes "transit"),
  )
  new_encryptor-MethodOf cnf (aes key) h = ground (
    arith,
    new_vault_encryptor_lem cnf.vault_addr cnf.vault_token (aes key),
    new_aes_encryptor_lem cnf.aes_key key,
    str_eq_iff cnf.encrypt_method (bytes "transit"),
    str_eq_iff cnf.encrypt_method (bytes "aes"),
  )
  new_encryptor-MethodOf cnf plaintext h = ground (
    arith,
    new_vault_encryptor_lem cnf.vault_addr cnf.vault_token plaintext,
    str_eq_iff cnf.encrypt_method (bytes "transit"),
    str_eq_iff cnf.encrypt_method (bytes "aes"),
  )

  -- The storage that a configuration gives.
  abbrev pub StorageOf : StorageKind → KaigaraConfig → Type 0
  StorageOf (vault_service addr token deployment) cnf =
      (cnf.storage ≡ bytes "vault")
      × (token ≡ cnf.vault_token)
      × (token ≢ [])
      × (deployment ≡ cnf.deployment_id)
      × (deployment ≢ [])
  StorageOf (sql_service deployment e) cnf =
      (cnf.storage ≡ bytes "sql") × (deployment ≡ cnf.deployment_id) × MethodOf e cnf

  new_vault_service_lem :
      (addr token deployment : Str) (k : StorageKind)
      → new_vault_service addr token deployment ≡ ok k
      → (k ≡ vault_service (or_default_addr addr) token deployment)
        × (token ≢ [])
        × (deployment ≢ [])
  unfolding new_vault_service
  new_vault_service_lem addr [] deployment k h = ground arith
  new_vault_service_lem addr (c ∷ token) [] k h = ground arith
  new_vault_service_lem addr (c ∷ token) (d ∷ deployment) k h = ground arith

  new_storage-StorageOf :
      (cnf : KaigaraConfig) (e : EncryptorKind) (k : StorageKind)
      → MethodOf e cnf
      → new_storage cnf e ≡ ok k
      → StorageOf k cnf
  unfolding new_storage
  new_storage-StorageOf cnf e k m h = elim (Bool-cases (str_eq cnf.storage (bytes "vault"))) [
    | inl v ↦
        let (is, token, deployment) =
          new_vault_service_lem cnf.vault_addr cnf.vault_token cnf.deployment_id k
            (rw (v, new_storage) at h) in
        rw is ((str_eq_iff cnf.storage (bytes "vault")).0 v, refl, token, refl, deployment)
    | inr v ↦ elim (Bool-cases (str_eq cnf.storage (bytes "sql"))) [
      | inl q ↦
          let is : sql_service cnf.deployment_id e ≡ k = ground arith in
          rw (← is) ((str_eq_iff cnf.storage (bytes "sql")).0 q, refl, m)
      | inr q ↦ ground arith
    ]
  ]

  -- A configuration gives the storage that it names: Vault only with a token and a deployment; SQL with
  -- transit or AES encryption only where the method says so, and with plaintext for every other method,
  -- however it is spelt. An AES key has 16, 24 or 32 bytes.
  pub get_storage_service-StorageOf :
      (cnf : KaigaraConfig) (k : StorageKind) → get_storage_service cnf ≡ ok k → StorageOf k cnf
  unfolding get_storage_service
  get_storage_service-StorageOf cnf k h = elim (Outcome-cases (new_encryptor cnf)) [
    | inr e ↦ ground arith
    | inl (e, made) ↦
        new_storage-StorageOf cnf e k (new_encryptor-MethodOf cnf e made)
          (rw (made, get_storage_service) at h)
  ]
