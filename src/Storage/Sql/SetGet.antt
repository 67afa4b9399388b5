-- ===== src/Storage/Sql/SetGet.antt =====
-- SetEntry against GetEntry.
use kaigara.Base.{
  ◌≡◌, ◌≢◌, true, false, ◌&&◌, some, Str, arith, str_eq, str_eq_refl, Option-cases, Bool-cases, inl,
  inr,
}
use kaigara.Base.Dict
use kaigara.Base.Dict.{Dict}
use kaigara.Base.Exec.{ok}
use kaigara.Value.{Value, text}
use kaigara.Encryptor.{Encryptor, IsFaithful}
use kaigara.Storage.Memory.{scope_of}
use kaigara.Storage.Gorm.{Gorm}
use kaigara.Storage.Sql.{
  StorageService, is_encrypted, as_string, entries_of, assign, set_entry, get_entry,
}
use kaigara.Storage.Sql.Entries.{
  stored, stored-assign, db-assign, set_entry_plain, set_entry_sealed, encrypting,
}

module _ {G : Gorm} {E : Encryptor} where
  pub get_plain :
      (app scope name : Str) {v : Value} (s : StorageService G E)
      → is_encrypted scope name ≡ false
      → stored app scope name s ≡ some v
      → (get_entry app scope name s).0 ≡ ok (some v)
  unfolding get_entry stored entries_of Dict.lookup
  get_plain app scope name s plain h = elim (Option-cases (scope_of app scope s.ds)) [
    | inl e ↦ ground arith
    | inr (m, e) ↦ ground arith
  ]

  pub get_sealed :
      (app scope name p c : Str) (s : StorageService G E)
      → is_encrypted scope name ≡ true
      → stored app scope name s ≡ some (text c)
      → (E.decrypt c app s.world).0 ≡ ok p
      → (get_entry app scope name s).0 ≡ ok (some (text p))
  unfolding get_entry stored entries_of Dict.lookup as_string
  get_sealed app scope name p c s sealed h d = elim (Option-cases (scope_of app scope s.ds)) [
    | inl e ↦ ground arith
    | inr (m, e) ↦ ground arith
  ]

  pub stored-assign_self :
      (app scope name : Str) (v : Value) (s : StorageService G E)
      → (assign app scope name v s).0 ≡ ok tt
      → stored app scope name (assign app scope name v s).1 ≡ some v
  stored-assign_self app scope name v s h =
      rw (stored-assign app scope name app scope name v s h, str_eq_refl, str_eq_refl, str_eq_refl)

  -- After a SetEntry that succeeds, GetEntry of the same entry succeeds and returns the value that was
  -- set, also where it was encrypted in between, if the encryptor is faithful.
  pub get_entry-set_entry :
      (app scope name : Str) (v : Value) (s : StorageService G E)
      → IsFaithful E
      → (set_entry app scope name v s).0 ≡ ok tt
      → (get_entry app scope name (set_entry app scope name v s).1).0 ≡ ok (some v)
  get_entry-set_entry app scope name v s faithful h = elim (Bool-cases (is_encrypted scope name)) [
    | inl e ↦
        let (p, c, same, issued, step) = set_entry_sealed app scope name v s e h in
        rw (step, same)
          (get_sealed app scope name p c _ e
            (stored-assign_self app scope name (text c) (encrypting app p s) (rw step at h))
            (faithful.opens p app s.world issued _))
    | inr e ↦
        let step = set_entry_plain app scope name v s e in
        rw step
          (get_plain app scope name _ e (stored-assign_self app scope name v s (rw step at h)))
  ]

  -- A SetEntry that succeeds leaves every other entry as it was stored, and the database.
  pub set_entry-other :
      (app scope name app' scope' name' : Str) (v : Value) (s : StorageService G E)
      → (set_entry app scope name v s).0 ≡ ok tt
      → str_eq app app' && (str_eq scope scope' && str_eq name name') ≡ false
      → (stored app' scope' name' (set_entry app scope name v s).1 ≡ stored app' scope' name' s)
        × ((set_entry app scope name v s).1.db ≡ s.db)
  unfolding stored entries_of
  set_entry-other app scope name app' scope' name' v s h other =
      elim (Bool-cases (is_encrypted scope name)) [
        | inl e ↦
            let (p, c, same, issued, step) = set_entry_sealed app scope name v s e h in
            let t = encrypting app p s in
            rw step (
              ground (
                arith,
                db-assign app scope name (text c) t,
                stored-assign app scope name app' scope' name' (text c) t (rw step at h),
              ))
        | inr e ↦
            let step = set_entry_plain app scope name v s e in
            rw step (
              ground (
                arith,
                db-assign app scope name v s,
                stored-assign app scope name app' scope' name' v s (rw step at h),
              ))
      ]

  -- A SetEntry that fails or panics changes neither the entries in memory nor the database.
  pub set_entry_failed :
      (app scope name : Str) (v : Value) (s : StorageService G E)
      → (set_entry app scope name v s).0 ≢ ok tt
      → ((set_entry app scope name v s).1.ds ≡ s.ds) × ((set_entry app scope name v s).1.db ≡ s.db)
  unfolding set_entry
  set_entry_failed app scope name v s h = ground arith
