-- ===== src/Storage/Vault/Entries.antt =====
-- The entries that the Vault service keeps, and what SetEntry, DeleteEntry and Write do to them.
use kaigara.Base.{
  ◌≡◌, refl, ◌∙◌, ap, ◌&&◌, Option, none, some, Str, arith, str_eq, str_eq_iff, if◌then◌else◌,
  Option-cases, inl, inr,
}
use kaigara.Base.Dict
use kaigara.Base.Dict.{Dict}
use kaigara.Base.Exec.{Exec, ok, >>=-eq-ok, >>=_of_ok}
use kaigara.Value.{Value}
use kaigara.Vault.{Client, Base64}
use kaigara.Storage.Memory.{scope_of, scope_of-set_scope}
use kaigara.Storage.Plain.{Plain, update}
use kaigara.Storage.Sql.{entries_of}
use kaigara.Storage.Vault.{
  Service, key_path, call, assign, assign_metadata, delete_metadata, delete_name, written, write,
  encrypt, decrypt, decrypt_raw, get_entry, delete_entry,
}

module _ {C : Client} where
  -- The entry as it is kept, the secret ones encrypted.
  unfoldable pub kept : Service C → Plain
  kept s app scope name = Dict.lookup name (entries_of app scope s.scope_data)

  -- Neither the entries nor the deployment change.
  abbrev pub Same : Service C → Service C → Type 0
  Same s t = (t.scope_data ≡ s.scope_data) × (t.deployment_id ≡ s.deployment_id)

  pub kept-assign :
      (app scope name : Str) (v : Value) (s : Service C)
      → (assign app scope name v s).0 ≡ ok tt
      → (app' scope' name' : Str)
      → kept (assign app scope name v s).1 app' scope' name'
        ≡ update app scope name (some v) (kept s) app' scope' name'
  unfolding kept assign entries_of
  kept-assign app scope name v s h app' scope' name' =
      elim (Option-cases (scope_of app scope s.scope_data)) [
        | inl e ↦ ground (arith)
        | inr (m, e) ↦ ground (
          arith,
          scope_of-set_scope app scope app' scope' (Dict.insert name v m) s.scope_data,
          Dict.lookup-insert name name' v m,
          str_eq_iff app app',
          str_eq_iff scope scope',
        )
      ]

  kept-delete_name :
      (app scope name : Str) (s : Service C)
      → (delete_name app scope name s).0 ≡ ok tt
      → ((app' scope' name' : Str)
          → kept (delete_name app scope name s).1 app' scope' name'
            ≡ update app scope name none (kept s) app' scope' name')
        × ((delete_name app scope name s).1.deployment_id ≡ s.deployment_id)
  unfolding kept delete_name entries_of
  kept-delete_name app scope name s h = elim (Option-cases (scope_of app scope s.scope_data)) [
    | inl e ↦ ground arith
    | inr (m, e) ↦ (
      λ app' scope' name'. ground (
        arith,
        scope_of-set_scope app scope app' scope' (Dict.delete name m) s.scope_data,
        Dict.lookup-delete name name' m,
        str_eq_iff app app',
        str_eq_iff scope scope',
      ),
      ground arith,
    )
  ]

  assign_metadata-Same :
      (app scope : Str) (m : Dict Value) (s : Service C) → Same s (assign_metadata app scope m s).1
  unfolding assign_metadata
  assign_metadata-Same app scope m s = ground arith

  delete_metadata-Same :
      (app scope : Str) (r : Option (Dict Value)) (s : Service C)
      → Same s (delete_metadata app scope r s).1
  unfolding delete_metadata
  delete_metadata-Same app scope none s = (refl, refl)
  delete_metadata-Same app scope (some m) s = assign_metadata-Same app scope m s

  write-Same : (app scope : Str) (s : Service C) → Same s (write app scope s).1
  unfolding write written assign_metadata
  write-Same app scope s = ground arith

  pub kept-Same :
      (s t : Service C)
      → Same s t
      → (app scope name : Str) → kept t app scope name ≡ kept s app scope name
  unfolding kept
  kept-Same s t same app scope name = ap (λ ds. Dict.lookup name (entries_of app scope ds)) same.0

  -- The same change of what two services keep alike.
  pub update-Same :
      (s t : Service C) (app scope name : Str) (r : Option Value)
      → Same s t
      → (app' scope' name' : Str)
      → update app scope name r (kept t) app' scope' name'
        ≡ update app scope name r (kept s) app' scope' name'
  update-Same s t app scope name r same app' scope' name' =
      ap (λ x. if str_eq app app' && (str_eq scope scope' && str_eq name name') then r else x)
        (kept-Same s t same app' scope' name')

  -- A DeleteEntry that succeeds: the name is deleted, and the scope written.
  delete_entry-eq-ok :
      (app scope name : Str) (s : Service C)
      → (delete_entry app scope name s).0 ≡ ok tt
      → (t : Service C) × Same s t
        × ((delete_name app scope name t).0 ≡ ok tt)
        × (delete_entry app scope name s ≡ write app scope (delete_name app scope name t).1)
  unfolding delete_entry
  delete_entry-eq-ok app scope name s h =
      let first : Exec (Service C) (Option (Dict Value)) =
        call (λ t. C.logical_delete (key_path app scope t)) in
      let (r, e₁, h₁) = >>=-eq-ok first _ s h in
      let s₁ = (first s).1 in
      let (_, e₂, h₂) = >>=-eq-ok (delete_metadata app scope r) _ s₁ h₁ in
      let t = (delete_metadata app scope r s₁).1 in
      let (_, e₃, h₃) = >>=-eq-ok (delete_name app scope name) _ t h₂ in
      (
        t,
        delete_metadata-Same app scope r s₁,
        e₃,
        >>=_of_ok first _ s e₁
            ∙ >>=_of_ok (delete_metadata app scope r) _ s₁ e₂
            ∙ >>=_of_ok (delete_name app scope name) _ t e₃,
      )

  pub kept-delete_entry :
      (app scope name : Str) (s : Service C)
      → (delete_entry app scope name s).0 ≡ ok tt
      → ((app' scope' name' : Str)
          → kept (delete_entry app scope name s).1 app' scope' name'
            ≡ update app scope name none (kept s) app' scope' name')
        × ((delete_entry app scope name s).1.deployment_id ≡ s.deployment_id)
  kept-delete_entry app scope name s h =
      let (t, same, done, step) = delete_entry-eq-ok app scope name s h in
      let (gone, id) = kept-delete_name app scope name t done in
      let wrote = write-Same app scope (delete_name app scope name t).1 in
      rw step (
        λ app' scope' name'.
            kept-Same _ _ wrote app' scope' name'
            ∙ gone app' scope' name'
            ∙ update-Same s t app scope name none same app' scope' name',
        wrote.1 ∙ id ∙ same.1,
      )

  pub get_entry-Same :
      (B : Base64) (app scope name : Str) (s : Service C) → Same s (get_entry B app scope name s).1
  unfolding get_entry decrypt_raw decrypt
  get_entry-Same B app scope name s = ground arith

  pub encrypt-Same : (B : Base64) (app p : Str) (s : Service C) → Same s (encrypt B app p s).1
  unfolding encrypt
  encrypt-Same B app p s = ground arith
