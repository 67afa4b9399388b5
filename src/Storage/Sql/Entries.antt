-- ===== src/Storage/Sql/Entries.antt =====
-- The entries in memory: SetEntry against GetEntry, and what SetEntry leaves alone.
use kaigara.Base.{
  ◌≡◌, refl, true, false, ◌&&◌, Option, none, some, Str, arith, str_eq, str_eq_iff, if◌then◌else◌,
  Option-cases, inl, inr,
}
use kaigara.Base.Dict
use kaigara.Base.Dict.{Dict}
use kaigara.Base.Exec.{ok, >>=-eq-ok}
use kaigara.Value.{Value, text}
use kaigara.Encryptor.{Encryptor}
use kaigara.Storage.Memory.{scope_of, set_scope, scope_of-set_scope, scope_of-set_scope_self}
use kaigara.Storage.Gorm.{Gorm}
use kaigara.Storage.Sql.{
  StorageService, is_encrypted, as_string, entries_of, assign, set_encrypted, set_entry,
  with_encryptor,
}

pub entries_of-set_scope :
    (app scope app' scope' : Str) (m : Dict Value) (ds : Dict (Dict (Dict Value)))
    → entries_of app' scope' (set_scope app scope m ds)
      ≡ (if str_eq app app' && str_eq scope scope' then m else entries_of app' scope' ds)
unfolding entries_of
entries_of-set_scope app scope app' scope' m ds =
    ground (arith, scope_of-set_scope app scope app' scope' m ds)

pub entries_of-set_scope_self :
    (app scope : Str) (m : Dict Value) (ds : Dict (Dict (Dict Value)))
    → entries_of app scope (set_scope app scope m ds) ≡ m
unfolding entries_of
entries_of-set_scope_self app scope m ds = ground (arith, scope_of-set_scope_self app scope m ds)

module _ {G : Gorm} {E : Encryptor} where
  -- The entry as it is stored, the secret ones encrypted.
  unfoldable pub stored : Str → Str → Str → StorageService G E → Option Value
  stored app scope name s = Dict.lookup name (entries_of app scope s.ds)

  pub stored-assign :
      (app scope name app' scope' name' : Str) (v : Value) (s : StorageService G E)
      → (assign app scope name v s).0 ≡ ok tt
      → stored app' scope' name' (assign app scope name v s).1 ≡ (
          if str_eq app app' && (str_eq scope scope' && str_eq name name')
          then some v
          else stored app' scope' name' s)
  unfolding stored assign entries_of
  stored-assign app scope name app' scope' name' v s h =
      elim (Option-cases (scope_of app scope s.ds)) [
        | inl e ↦ ground (arith)
        | inr (m, e) ↦ ground (
          arith,
          scope_of-set_scope app scope app' scope' (Dict.insert name v m) s.ds,
          Dict.lookup-insert name name' v m,
          str_eq_iff app app',
          str_eq_iff scope scope',
        )
      ]

  -- An assignment changes the loaded entries only.
  pub db-assign :
      (app scope name : Str) (v : Value) (s : StorageService G E)
      → ((assign app scope name v s).1.db ≡ s.db) × ((assign app scope name v s).1.world ≡ s.world)
  unfolding assign
  db-assign app scope name v s = ground arith

  pub set_entry_plain :
      (app scope name : Str) (v : Value) (s : StorageService G E)
      → is_encrypted scope name ≡ false
      → set_entry app scope name v s ≡ assign app scope name v s
  unfolding set_entry
  set_entry_plain app scope name v s h = rw h

  -- The service once an entry of this application is encrypted.
  abbrev pub encrypting : Str → Str → StorageService G E → StorageService G E
  encrypting app p s = record s { world = (E.encrypt p app s.world).1 }

  pub set_encrypted-eq-ok :
      (app scope name : Str) (o : Option Str) (s : StorageService G E)
      → (set_encrypted app scope name o s).0 ≡ ok tt
      → (p : Str) × (c : Str) × (o ≡ some p)
        × ((E.encrypt p app s.world).0 ≡ ok c)
        × (set_encrypted app scope name o s ≡ assign app scope name (text c) (encrypting app p s))
  unfolding set_encrypted
  set_encrypted-eq-ok app scope name none s h = ground arith
  set_encrypted-eq-ok app scope name (some p) s h =
      let (c, issued, _) = >>=-eq-ok (with_encryptor (E.encrypt p app)) _ s h in
      (p, c, refl, issued, ground (arith, issued))

  pub set_entry_sealed :
      (app scope name : Str) (v : Value) (s : StorageService G E)
      → is_encrypted scope name ≡ true
      → (set_entry app scope name v s).0 ≡ ok tt
      → (p : Str) × (c : Str) × (v ≡ text p)
        × ((E.encrypt p app s.world).0 ≡ ok c)
        × (set_entry app scope name v s ≡ assign app scope name (text c) (encrypting app p s))
  unfolding set_entry as_string
  set_entry_sealed app scope name (text p) s e h =
      let (q, c, same, issued, step) = set_encrypted-eq-ok app scope name (some p) s (rw e at h) in
      (p, c, refl, ground arith, rw e (ground arith))
  set_entry_sealed app scope name _ s e h =
      ground (arith, set_encrypted-eq-ok app scope name none s)
