-- ===== src/Storage/Sql/Steps.antt =====
-- The runs of a service, and the invariant that every one of its operations keeps: secrets are
-- stored encrypted, in memory and in the database.
use kaigara.Base.{
  ◌≡◌, ◌∙◌, refl, true, ◌&&◌, Option, some, Str, List, [], ◌∷◌, arith, str_eq, str_eq_iff,
  Option-cases, Bool-cases, inl, inr,
}
use kaigara.Base.Dict
use kaigara.Base.Dict.{Dict, NodupKeys, insert-NodupKeys}
use kaigara.Base.Exec.{Outcome-cases, ok, continue}
use kaigara.Value.{Value, text}
use kaigara.Encryptor.{Encryptor}
use kaigara.Storage.Memory.{scope_of, set_scope, scope_of-set_scope}
use kaigara.Storage.Gorm.{Gorm, Data, row, Found-cases}
use kaigara.Storage.Sql.{
  StorageService, is_encrypted, entries_of, put_scope, make_scope, load_row, fresh_entries, read,
  assign, set_entry, set_entries, get_entry, get_names, get_entries, delete_entry,
}
use kaigara.Storage.Sql.Entries.{set_entry_plain, set_entry_sealed, encrypting}
use kaigara.Storage.Sql.SetGet.{set_entry_failed}
use kaigara.Storage.Sql.Sealed.{
  Sealed, SealedColumn, IssuedValue, insert-Sealed, delete-Sealed, load_row-Sealed,
  fresh_entries-Sealed,
}

module _ (E : Encryptor) where
  abbrev pub SealedMemory : Dict (Dict (Dict Value)) → Type 0
  SealedMemory ds =
      (app scope : Str) (m : Dict Value) → scope_of app scope ds ≡ some m → Sealed E scope m

  set_scope-Sealed :
      (app scope : Str) (m : Dict Value) (ds : Dict (Dict (Dict Value)))
      → Sealed E scope m
      → SealedMemory ds
      → SealedMemory (set_scope app scope m ds)
  set_scope-Sealed app scope m ds h s app' scope' m' e =
      elim (Bool-cases (str_eq app app' && str_eq scope scope')) [
        | inl same ↦
            let one : m ≡ m' = ground (arith, scope_of-set_scope app scope app' scope' m ds) in
            let at : scope ≡ scope' = ground (arith, str_eq_iff scope scope') in rw (← at, ← one) h
        | inr other ↦
            s app' scope' m' (ground (arith, scope_of-set_scope app scope app' scope' m ds))
      ]

  pub entries_of-Sealed :
      (app scope : Str) (ds : Dict (Dict (Dict Value)))
      → SealedMemory ds
      → Sealed E scope (entries_of app scope ds)
  unfolding entries_of
  entries_of-Sealed app scope ds s = elim (Option-cases (scope_of app scope ds)) [
    | inl e ↦ rw (e, entries_of) tt
    | inr (m, e) ↦ rw (e, entries_of) (s app scope m e)
  ]

module _ (G : Gorm) (E : Encryptor) where
  abbrev pub SealedDatabase : G.Db → Type 0
  SealedDatabase db =
      (app scope : Str) (d : Data) → G.first app scope db ≡ row d → SealedColumn E scope d.value

module _ {G : Gorm} {E : Encryptor} where
  pub record IsSealed (s : StorageService G E) : Type 0 where
    pub memory : SealedMemory E s.ds
    pub database : SealedDatabase G E s.db

  -- The same entries and the same database.
  pub same-IsSealed :
      {s t : StorageService G E} → t.ds ≡ s.ds → t.db ≡ s.db → IsSealed s → IsSealed t
  same-IsSealed p q h = record { memory = rw p h.memory; database = rw q h.database }

  pub put_scope-IsSealed :
      (app scope : Str) (m : Dict Value) (s : StorageService G E)
      → Sealed E scope m
      → IsSealed s
      → IsSealed (put_scope app scope m s)
  unfolding put_scope
  put_scope-IsSealed app scope m s p h = record {
    memory = set_scope-Sealed E app scope m s.ds p h.memory;
    database = h.database;
  }

  make_scope-IsSealed :
      (app scope : Str) (s : StorageService G E) → IsSealed s → IsSealed (make_scope app scope s)
  unfolding make_scope
  make_scope-IsSealed app scope s h = elim (Option-cases (scope_of app scope s.ds)) [
    | inl e ↦ rw (e, make_scope) (put_scope-IsSealed app scope [] s tt h)
    | inr (m, e) ↦ rw (e, make_scope) h
  ]

  pub read-IsSealed :
      (app scope : Str) (s : StorageService G E) → IsSealed s → IsSealed (read app scope s).1
  unfolding read
  read-IsSealed app scope s h =
      let made = make_scope-IsSealed app scope s h in
      elim (Found-cases (G.first app scope s.db)) [
        | inl (m, e) ↦ rw (e, read) made
        | inr (inl e) ↦
            rw (e, read)
              (put_scope-IsSealed app scope fresh_entries _ (fresh_entries-Sealed E scope) made)
        | inr (inr (d, e)) ↦ elim (Outcome-cases (load_row d.value d.version)) [
          | inl (val, l) ↦
              rw (e, l, read)
                (put_scope-IsSealed app scope val _
                  (load_row-Sealed E scope d.value d.version (h.database app scope d e) l) made)
          | inr (inl (x, l)) ↦ rw (e, l, read) made
          | inr (inr (x, l)) ↦ rw (e, l, read) made
        ]
      ]

  -- GetEntry and GetEntries, like a SetEntry that fails, leave entries and database as they are.
  abbrev pub Unchanged : StorageService G E → StorageService G E → Type 0
  Unchanged s t = (t.ds ≡ s.ds) × (t.db ≡ s.db)

  pub get_entry-Unchanged :
      (app scope name : Str) (s : StorageService G E) → Unchanged s (get_entry app scope name s).1
  unfolding get_entry
  get_entry-Unchanged app scope name s = ground arith

  get_names-Unchanged :
      (app scope : Str) (ks : List Str) (res : Dict (Option Value)) (s : StorageService G E)
      → Unchanged s (get_names app scope ks res s).1
  unfolding get_names
  get_names-Unchanged app scope [] res s = (refl, refl)
  get_names-Unchanged app scope (k ∷ ks) res s =
      let (p, q) = get_entry-Unchanged app scope k s in
      elim (Outcome-cases (get_entry app scope k s).0) [
        | inl (v, e) ↦
            let rest =
              get_names-Unchanged app scope ks (Dict.insert k v res) (get_entry app scope k s).1 in
            rw (e, continue) (rest.0 ∙ p, rest.1 ∙ q)
        | inr (inl (x, e)) ↦ rw (e, continue) (p, q)
        | inr (inr (x, e)) ↦ rw (e, continue) (p, q)
      ]

  pub get_entries-Unchanged :
      (app scope : Str) (s : StorageService G E) → Unchanged s (get_entries app scope s).1
  unfolding get_entries
  get_entries-Unchanged app scope s = get_names-Unchanged app scope _ [] s

  pub delete_entry-IsSealed :
      (app scope name : Str) (s : StorageService G E)
      → IsSealed s
      → IsSealed (delete_entry app scope name s).1
  unfolding delete_entry
  delete_entry-IsSealed app scope name s h = elim (Option-cases (scope_of app scope s.ds)) [
    | inl e ↦ rw (e, delete_entry) h
    | inr (m, e) ↦
        rw (e, delete_entry)
          (put_scope-IsSealed app scope _ s (delete-Sealed E scope name m (h.memory app scope m e))
            h)
  ]

  assign-IsSealed :
      (app scope name : Str) (v : Value) (s : StorageService G E)
      → (is_encrypted scope name ≡ true → IssuedValue E v)
      → IsSealed s
      → IsSealed (assign app scope name v s).1
  unfolding assign
  assign-IsSealed app scope name v s p h = elim (Option-cases (scope_of app scope s.ds)) [
    | inl e ↦ rw (e, assign) h
    | inr (m, e) ↦
        rw (e, assign)
          (put_scope-IsSealed app scope _ s
            (insert-Sealed E scope name v m p (h.memory app scope m e)) h)
  ]

  set_entry_ok-IsSealed :
      (app scope name : Str) (v : Value) (s : StorageService G E)
      → (set_entry app scope name v s).0 ≡ ok tt
      → IsSealed s
      → IsSealed (set_entry app scope name v s).1
  set_entry_ok-IsSealed app scope name v s done h = elim (Bool-cases (is_encrypted scope name)) [
    | inl e ↦
        let (p, c, same, issued, step) = set_entry_sealed app scope name v s e done in
        let proof =
          assign-IsSealed app scope name (text c) (encrypting app p s)
            (λ _.
              (c, refl, record { plaintext = p; app = app; world = s.world; returned = issued }))
            (same-IsSealed {s = s} refl refl h) in
        rw step proof
    | inr e ↦
        rw (set_entry_plain app scope name v s e) (assign-IsSealed app scope name v s (λ t. cc) h)
  ]

  pub set_entry-IsSealed :
      (app scope name : Str) (v : Value) (s : StorageService G E)
      → IsSealed s
      → IsSealed (set_entry app scope name v s).1
  set_entry-IsSealed app scope name v s h = elim (Outcome-cases (set_entry app scope name v s).0) [
    | inl (x, e) ↦ set_entry_ok-IsSealed app scope name v s e h
    | inr other ↦
        let (p, q) = set_entry_failed app scope name v s (λ t. ground arith) in same-IsSealed p q h
  ]

  pub set_entries-IsSealed :
      (app scope : Str) (values : Dict Value) (s : StorageService G E)
      → IsSealed s
      → IsSealed (set_entries app scope values s).1
  unfolding set_entries
  set_entries-IsSealed app scope [] s h = h
  set_entries-IsSealed app scope ((k, v) ∷ values) s h =
      let next = set_entry-IsSealed app scope k v s h in
      elim (Outcome-cases (set_entry app scope k v s).0) [
        | inl (x, e) ↦ rw (e, continue) (set_entries-IsSealed app scope values _ next)
        | inr (inl (x, e)) ↦ rw (e, continue) next
        | inr (inr (x, e)) ↦ rw (e, continue) next
      ]
