-- ===== src/Storage/Vault/Versions.antt =====
-- The versions of a scope that the Vault service has written.
use kaigara.Base.{
  ◌≡◌, sym, ◌∙◌, Option, none, some, Str, [], ◌∷◌, ◌++◌, bytes, arith, str_eq, Option-cases,
  Bool-cases, inl, inr, ap,
}
use kaigara.Base.Dict
use kaigara.Base.Dict.{Dict}
use kaigara.Base.Exec.{Exec, Outcome, ok, panic, bad_assertion, ◌>>=◌, >>=-eq-ok}
use kaigara.Base.Int64.{ℤ}
use kaigara.Value.{Value}
use kaigara.Vault.{Client, IsKv}
use kaigara.Storage.Memory.{scope_of, scope_of-set_scope_self}
use kaigara.Storage.Response.{sent_data, version_of}
use kaigara.Storage.Vault.{
  Service, secret_path, key_path, metadata_path, call, put_metadata, assign_metadata, written,
  write, get_current_version, get_latest_version,
}
use kaigara.Storage.Vault.SetGet.{at_world}

module _ {C : Client} where
  assign_metadata-eq-ok :
      (app scope : Str) (m : Dict Value) (s : Service C)
      → (assign_metadata app scope m s).0 ≡ ok tt
      → assign_metadata app scope m s ≡ (ok tt, put_metadata app scope m s)
  unfolding assign_metadata
  assign_metadata-eq-ok app scope m s h = elim (Option-cases (Dict.lookup app s.metadata)) [
    | inl e ↦ ground arith
    | inr (found, e) ↦ rw (e, assign_metadata)
  ]

  -- What Write sends, and what it leaves.
  abbrev pub request : Str → Str → Service C → Exec C.World (Option (Dict Value))
  request app scope s =
      C.logical_write (key_path app scope s)
        ((bytes "data", sent_data (scope_of app scope s.scope_data)) ∷ [])

  pub write-eq-ok :
      (app scope : Str) (s : Service C)
      → (write app scope s).0 ≡ ok tt
      → (r : Option (Dict Value)) × ((request app scope s s.world).0 ≡ ok r)
        × ((written app scope r (at_world (request app scope s s.world).1 s)).0 ≡ ok tt)
        × (write app scope s ≡ written app scope r (at_world (request app scope s s.world).1 s))
  unfolding write
  write-eq-ok app scope s h = elim (Bool-cases (str_eq s.deployment_id [])) [
    | inl e ↦ ground arith
    | inr e ↦
        let m : Exec (Service C) (Option (Dict Value)) = call (λ t. request app scope t) in
        let step : write app scope s ≡ (m >>= written app scope) s = rw (e, write) in
        let (r, sent, rest) = >>=-eq-ok m (written app scope) s (rw step at h) in
        (r, sent, rest, step ∙ rw sent)
  ]

  current_of-put_metadata :
      (app scope : Str) (m : Dict Value) (s : Service C)
      → (get_current_version app scope (put_metadata app scope m s)).0
        ≡ version_of (Dict.lookup (bytes "version") m)
  unfolding get_current_version
  current_of-put_metadata app scope m s =
      ap
        (λ (found : Option (Dict Value)).
          (elim found as (λ x. Outcome ℤ × Service C) [
            | none ↦ (panic bad_assertion, put_metadata app scope m s)
            | some n ↦ (version_of (Dict.lookup (bytes "version") n), put_metadata app scope m s)
          ]).0)
        (scope_of-set_scope_self app scope m s.metadata)

  latest_of :
      (app scope : Str) (meta : Dict Value) (s : Service C)
      → (C.logical_read (metadata_path app scope s) s.world).0 ≡ ok (some meta)
      → (get_latest_version app scope s).0 ≡ version_of (Dict.lookup (bytes "current_version") meta)
  unfolding get_latest_version
  latest_of app scope meta s h = rw h

  -- After a Write that succeeds, the version in memory is the latest one in Vault: the two calls that the
  -- watcher compares give the same, if Vault's KV engine reports the version that it has made.
  pub vault_latest-eq-current_of_write :
      (app scope : Str) (s : Service C)
      → IsKv C
      → (write app scope s).0 ≡ ok tt
      → (get_latest_version app scope (write app scope s).1).0
        ≡ (get_current_version app scope (write app scope s).1).0
  unfolding written key_path metadata_path secret_path
  vault_latest-eq-current_of_write app scope s kv h =
      let (r, sent, done, step) = write-eq-ok app scope s h in
      let secret = s.deployment_id ++ (bytes "/" ++ (app ++ (bytes "/" ++ scope))) in
      let (n, fields, meta, is, version, read, current) =
        kv.versions secret (sent_data (scope_of app scope s.scope_data)) r s.world sent in
      let put = assign_metadata-eq-ok app scope fields _ (rw is at done) in
      let u = at_world (request app scope s s.world).1 s in
      rw (step, is, put)
        (latest_of app scope meta (put_metadata app scope fields u) read
          ∙ ap version_of (current ∙ sym version)
          ∙ sym (current_of-put_metadata app scope fields u))
