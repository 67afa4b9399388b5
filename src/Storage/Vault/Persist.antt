-- ===== src/Storage/Vault/Persist.antt =====
-- Write against Read on the Vault service: what one service has written, another one gets.
use kaigara.Base.{
  ◌≡◌, refl, sym, ap, ◌∙◌, true, Option, some, [], ◌∷◌, ◌++◌, bytes, Str, arith, inl, inr,
}
use kaigara.Base.Dict
use kaigara.Base.Dict.{Dict, NodupKeys}
use kaigara.Base.Exec.{Exec, ok, ◌>>=◌, >>=_of_ok}
use kaigara.Value.{Value, text, bool, mapping, Fields}
use kaigara.Vault.KvStore.{IsKvStore}
use kaigara.Vault.{Client, Base64, IsTransit}
use kaigara.Storage.Memory.{scope_of, scope_of-set_scope_self}
use kaigara.Storage.Response.{entries_of_fields, fields_of_entries, sent_data}
use kaigara.Storage.Sql.{entries_of}
use kaigara.Storage.Vault.{
  put_data, put_metadata, Service, key_path, secret_path, call, written, write, load, read,
  init_transit_key, service_key_exists, service_key_create, transit_key_name, assign_metadata,
  make_app, set_entry, get_entry,
}
use kaigara.Storage.Vault.SetGet.{at_world}
use kaigara.Storage.Vault.Versions.{request, write-eq-ok}
use kaigara.Storage.Vault.Entries.{kept}
use kaigara.Storage.Plain.{update_self}
use kaigara.Storage.Vault.Refines.{StandsFor, get_kept, kept-set_entry, StandsFor-same}

entries_of_fields_of_entries : (m : Dict Value) → entries_of_fields (fields_of_entries m) ≡ m
unfolding entries_of_fields fields_of_entries
entries_of_fields_of_entries [] = refl
entries_of_fields_of_entries ((k, v) ∷ m) = ap (λ t. (k, v) ∷ t) (entries_of_fields_of_entries m)

module _ {C : Client} (kv : IsKvStore C) where
  -- The name of a secret in the KV engine.
  abbrev secret_of : Str → Str → Service C → Str
  secret_of app scope s = s.deployment_id ++ (bytes "/" ++ (app ++ (bytes "/" ++ scope)))

  written-world :
      (app scope : Str) (r : Option (Dict Value)) (s : Service C)
      → (written app scope r s).1.world ≡ s.world
  unfolding written assign_metadata
  written-world app scope r s = ground arith

  write-data_at :
      (app scope : Str) (s : Service C)
      → (write app scope s).0 ≡ ok tt
      → kv.data_at (write app scope s).1.world (secret_of app scope s)
        ≡ some (kv.delivered (sent_data (scope_of app scope s.scope_data)))
  unfolding key_path secret_path
  write-data_at app scope s h =
      let (r, sent, done, step) = write-eq-ok app scope s h in
      let kept_there =
        kv.keeps_written (secret_of app scope s) (sent_data (scope_of app scope s.scope_data)) r
          s.world sent in
      rw (step, written-world app scope r (at_world (request app scope s s.world).1 s)) kept_there

  init-keeps :
      (app secret : Str) (t : Service C)
      → (kv.data_at (init_transit_key app t).1.world secret ≡ kv.data_at t.world secret)
        × ((init_transit_key app t).1.deployment_id ≡ t.deployment_id)
  unfolding init_transit_key service_key_exists service_key_create transit_key_name
  init-keeps app secret t =
      let name = t.deployment_id ++ (bytes "_kaigara_" ++ app) in
      let w = (C.logical_read (bytes "transit/keys/" ++ name) t.world).1 in
      ground (
        arith,
        kv.keeps_read (bytes "transit/keys/" ++ name) secret t.world,
        kv.keeps_transit (bytes "keys/" ++ name) secret ((bytes "force", bool true) ∷ []) w,
      )

  load-eq :
      (app scope : Str) (fields : Dict Value) (gs ms : Fields) (s : Service C)
      → Dict.lookup (bytes "data") fields ≡ some (mapping gs)
      → Dict.lookup (bytes "metadata") fields ≡ some (mapping ms)
      → load app scope (some fields) s ≡ (
        ok tt,
        put_metadata app scope (entries_of_fields ms) (put_data app scope (entries_of_fields gs) s),
      )
  unfolding load
  load-eq app scope fields gs ms s has_data has_meta = rw (load, has_data, has_meta) refl

  kept-put :
      (app scope name : Str) (m n : Dict Value) (s : Service C)
      → kept (put_metadata app scope m (put_data app scope n s)) app scope name ≡ Dict.lookup name n
  unfolding kept entries_of
  kept-put app scope name m n s = ground (arith, scope_of-set_scope_self app scope n s.scope_data)

  load-kept :
      (app scope name : Str) (fields : Dict Value) (gs ms : Fields) (s : Service C)
      → Dict.lookup (bytes "data") fields ≡ some (mapping gs)
      → Dict.lookup (bytes "metadata") fields ≡ some (mapping ms)
      → ((load app scope (some fields) s).0 ≡ ok tt)
        × (kept (load app scope (some fields) s).1 app scope name
            ≡ Dict.lookup name (entries_of_fields gs))
        × ((load app scope (some fields) s).1.deployment_id ≡ s.deployment_id)
  load-kept app scope name fields gs ms s has_data has_meta =
      rw (load-eq app scope fields gs ms s has_data has_meta)
        (refl, kept-put app scope name (entries_of_fields ms) (entries_of_fields gs) s, refl)

  -- A service whose maps of an application are made.
  abbrev made : Str → Service C → Service C
  made app s = record s {
    scope_data = make_app app s.scope_data;
    metadata = make_app app s.metadata;
  }

  read-eq :
      (app scope : Str) (answer : Option (Dict Value)) (t : Service C)
      → (init_transit_key app t).0 ≡ ok tt
      → let u = (init_transit_key app t).1 in
        (C.logical_read (key_path app scope u) u.world).0 ≡ ok answer
        → read app scope t
          ≡ load app scope answer
              (made app (at_world (C.logical_read (key_path app scope u) u.world).1 u))
  unfolding read
  read-eq app scope answer t ready answered =
      let u = (init_transit_key app t).1 in
      let asks : Exec (Service C) (Option (Dict Value)) =
        call (λ s. C.logical_read (key_path app scope s)) in
      let loads : Option (Dict Value) → Exec (Service C) (Unit {0}) =
        λ secret s. load app scope secret (made app s) in
      >>=_of_ok (init_transit_key app) (λ _. asks >>= loads) t ready
      ∙ >>=_of_ok asks loads u answered

  -- What a service reads of a secret that is a map.
  read-kept :
      (app scope name : Str) (gs : Fields) (t : Service C)
      → kv.data_at t.world (secret_of app scope t) ≡ some (mapping gs)
      → (init_transit_key app t).0 ≡ ok tt
      → (kept (read app scope t).1 app scope name ≡ Dict.lookup name (entries_of_fields gs))
        × ((read app scope t).1.deployment_id ≡ t.deployment_id)
  unfolding key_path secret_path
  read-kept app scope name gs t there ready =
      let u = (init_transit_key app t).1 in
      let (same, id) = init-keeps app (secret_of app scope t) t in
      let here : kv.data_at u.world (secret_of app scope u) ≡ some (mapping gs) =
        rw id (same ∙ there) in
      let (fields, ms, answered, has_data, has_meta) =
        kv.reads_back (secret_of app scope u) (mapping gs) u.world here in
      let w = (C.logical_read (key_path app scope u) u.world).1 in
      let (_, found, kept_id) =
        load-kept app scope name fields gs ms (made app (at_world w u)) has_data has_meta in
      rw (read-eq app scope (some fields) t ready answered) (found, kept_id ∙ id)

  -- What a Write that succeeds leaves of an entry.
  written-fields :
      (app scope name : Str) (r : Value) (m : Dict Value) (u : Service C)
      → scope_of app scope u.scope_data ≡ some m
      → NodupKeys m
      → (write app scope u).0 ≡ ok tt
      → kept u app scope name ≡ some r
      → (gs : Fields) × (kv.data_at (write app scope u).1.world (secret_of app scope u)
          ≡ some (mapping gs))
        × (Dict.lookup name (entries_of_fields gs) ≡ some (kv.delivered r))
  unfolding kept entries_of
  written-fields app scope name r m u loaded nodup sent found =
      let back = entries_of_fields_of_entries m in
      let (gs, is, keys) = kv.delivered_mapping (fields_of_entries m) (rw back nodup) in
      let there = rw (loaded, is) at (write-data_at app scope u sent) in
      let here : Dict.lookup name m ≡ some r = ground arith in
      (gs, there, keys name r (rw back here))

  module _ (B : Base64) (transit : IsTransit C B) where
    -- What is kept for a text is a text, so that JSON delivers it as it is.
    StandsFor-delivered :
        (app scope name p : Str) (r : Value) (s : Service C)
        → StandsFor B s app scope name r (text p)
        → kv.delivered r ≡ r
    StandsFor-delivered app scope name p r s (inl (e, is)) = rw is (kv.delivered_text p)
    StandsFor-delivered app scope name p r s (inr (e, q, c, is, raw, opens)) =
        rw raw (kv.delivered_text c)

    -- Set, Write, Read, Get: a text that one service has set and written is what another one of the same
    -- deployment gets once it has read the scope, encrypted by Vault or not, if the KV engine keeps what is
    -- written and the transit engine decrypts what it has encrypted.
    pub vault_get_entry-write :
        (app scope name p : Str) (m : Dict Value) (s t : Service C)
        → scope_of app scope (set_entry B app scope name (text p) s).1.scope_data ≡ some m
        → NodupKeys m
        → (set_entry B app scope name (text p) s).0 ≡ ok tt
        → (write app scope (set_entry B app scope name (text p) s).1).0 ≡ ok tt
        → t.world ≡ (write app scope (set_entry B app scope name (text p) s).1).1.world
        → t.deployment_id ≡ s.deployment_id
        → (init_transit_key app t).0 ≡ ok tt
        → (get_entry B app scope name (read app scope t).1).0 ≡ ok (some (text p))
    vault_get_entry-write app scope name p m s t loaded nodup set sent same id ready =
        let u = (set_entry B app scope name (text p) s).1 in
        let (r, stands, kept_id, step) = kept-set_entry B transit app scope name (text p) s set in
        let t_id = id ∙ sym kept_id in
        let stored = update_self app scope name (some r) (kept s) in
        let (gs, there, held) =
          written-fields app scope name r m u loaded nodup sent (step app scope name ∙ stored) in
        let (found, read_id) = read-kept app scope name gs t (rw (same, t_id) there) ready in
        let stays = StandsFor-delivered app scope name p r u stands in
        get_kept B app scope name r (text p) (read app scope t).1 (found ∙ held ∙ ap some stays) (
          StandsFor-same B u (read app scope t).1 app scope name r (text p) (read_id ∙ t_id) stands)
