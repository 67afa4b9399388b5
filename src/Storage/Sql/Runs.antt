-- ===== src/Storage/Sql/Runs.antt =====
-- Sequences of operations on a service: what holds of the database and of the entries in memory after
-- any of them, whether they succeed, fail or panic.
use kaigara.Base.{◌≡◌, ◌&&◌, Str, [], arith, str_eq, str_eq_iff, Option-cases, Bool-cases, inl, inr}
use kaigara.Base.Dict
use kaigara.Base.Dict.{Dict, NodupKeys}
use kaigara.Base.Int64.{ℤ, add_one}
use kaigara.Value.{Value, int64}
use kaigara.Encryptor.{Encryptor}
use kaigara.Storage.Gorm.{Gorm, IsTable, Data, row, not_found, updated, Found-cases}
use kaigara.Storage.Sql.{
  StorageService, version_key, as_int64, entries_of, data_of, put_scope, read, write, write_create,
  write_update, set_entry, set_entries, get_entry, get_entries, delete_entry,
}
use kaigara.Storage.Sql.Sealed.{SealedColumn, marshal-Sealed, insert_version-Sealed}
use kaigara.Storage.Sql.Steps.{
  SealedDatabase, IsSealed, put_scope-IsSealed, entries_of-Sealed, read-IsSealed,
  set_entry-IsSealed, set_entries-IsSealed, delete_entry-IsSealed, get_entry-Unchanged,
  get_entries-Unchanged, same-IsSealed,
}

module _ {G : Gorm} {E : Encryptor} (table : IsTable G) where
  create-SealedDatabase :
      (d : Data) (db : G.Db)
      → SealedColumn E d.scope d.value
      → G.first d.app_name d.scope db ≡ not_found
      → SealedDatabase G E db
      → SealedDatabase G E (G.create d db).1
  create-SealedDatabase d db c e h app scope r found = elim (Option-cases (G.create d db).0) [
    | inl done ↦
        let law = table.first-create d db e done app scope in
        elim (Bool-cases (str_eq d.app_name app && str_eq d.scope scope)) [
          | inl here ↦
              let one : d ≡ r = ground (arith, law) in
              let at : d.scope ≡ scope = ground (arith, str_eq_iff d.scope scope) in
              rw (← at, ← one) c
          | inr other ↦ h app scope r (ground (arith, law))
        ]
    | inr (m, refused) ↦
        h app scope r (ground (arith, table.create_failed d db m refused app scope))
  ]

  updates-SealedDatabase :
      (old d : Data) (db : G.Db)
      → SealedColumn E d.scope (updated old d).value
      → G.first d.app_name d.scope db ≡ row old
      → SealedDatabase G E db
      → SealedDatabase G E (G.updates old d db).1
  updates-SealedDatabase old d db c e h app scope r found =
      elim (Option-cases (G.updates old d db).0) [
        | inl done ↦
            let law = table.first-updates old d db e done app scope in
            elim (Bool-cases (str_eq d.app_name app && str_eq d.scope scope)) [
              | inl here ↦
                  let one : updated old d ≡ r = ground (arith, law) in
                  let at : d.scope ≡ scope = ground (arith, str_eq_iff d.scope scope) in
                  rw (← at, ← one) c
              | inr other ↦ h app scope r (ground (arith, law))
            ]
        | inr (m, refused) ↦
            h app scope r (ground (arith, table.updates_failed old d db m refused app scope))
      ]

  create-IsSealed :
      (app scope : Str) (ver : ℤ) (s : StorageService G E)
      → G.first app scope s.db ≡ not_found
      → IsSealed s
      → IsSealed (write_create app scope ver s).1
  unfolding write_create
  create-IsSealed app scope ver s e h = record {
    memory = h.memory;
    database =
        create-SealedDatabase (data_of app scope (entries_of app scope s.ds) ver) s.db
          (marshal-Sealed E scope _ (entries_of-Sealed E app scope s.ds h.memory)) e h.database;
  }

  update-IsSealed :
      (app scope : Str) (old : Data) (s : StorageService G E)
      → G.first app scope s.db ≡ row old
      → IsSealed s
      → IsSealed (write_update app scope old s).1
  unfolding write_update put_scope
  update-IsSealed app scope old s e h =
      let version = add_one old.version in
      let val = Dict.insert version_key (int64 version) (entries_of app scope s.ds) in
      let sealed =
        insert_version-Sealed E scope version _ (entries_of-Sealed E app scope s.ds h.memory) in
      let put = put_scope-IsSealed app scope val s sealed h in
      record {
        memory = put.memory;
        database =
            updates-SealedDatabase old (data_of app scope val version) s.db
              (marshal-Sealed E scope val sealed) e h.database;
      }

  pub write-IsSealed :
      (app scope : Str) (s : StorageService G E) → IsSealed s → IsSealed (write app scope s).1
  unfolding write
  write-IsSealed app scope s h =
      elim (Option-cases (as_int64 (Dict.lookup version_key (entries_of app scope s.ds)))) [
        | inl e ↦ rw (e, write) h
        | inr (ver, v) ↦ elim (Found-cases (G.first app scope s.db)) [
          | inl (m, e) ↦ rw (v, e, write) h
          | inr (inl e) ↦ rw (v, e, write) (create-IsSealed app scope ver s e h)
          | inr (inr (old, e)) ↦ rw (v, e, write) (update-IsSealed app scope old s e h)
        ]
      ]

-- One call of an operation, whatever it returns.
pub data Step {G : Gorm} {E : Encryptor} : StorageService G E → StorageService G E → Type 0 where
  reads : (app scope : Str) (s : StorageService G E) → Step s (read app scope s).1
  writes : (app scope : Str) (s : StorageService G E) → Step s (write app scope s).1
  sets :
      (app scope name : Str) (v : Value) (s : StorageService G E)
      → Step s (set_entry app scope name v s).1
  sets_all :
      (app scope : Str) (values : Dict Value) (s : StorageService G E)
      → Step s (set_entries app scope values s).1
  gets : (app scope name : Str) (s : StorageService G E) → Step s (get_entry app scope name s).1
  gets_all : (app scope : Str) (s : StorageService G E) → Step s (get_entries app scope s).1
  deletes :
      (app scope name : Str) (s : StorageService G E) → Step s (delete_entry app scope name s).1

pub data Reach {G : Gorm} {E : Encryptor} (s : StorageService G E)
    : StorageService G E → Type 0 where
  here : Reach s s
  next : {t u : StorageService G E} → Reach s t → Step t u → Reach s u

module _ {G : Gorm} {E : Encryptor} (table : IsTable G) where
  Step-IsSealed : {s t : StorageService G E} → Step s t → IsSealed s → IsSealed t
  Step-IsSealed (reads app scope s) h = read-IsSealed app scope s h
  Step-IsSealed (writes app scope s) h = write-IsSealed table app scope s h
  Step-IsSealed (sets app scope name v s) h = set_entry-IsSealed app scope name v s h
  Step-IsSealed (sets_all app scope values s) h = set_entries-IsSealed app scope values s h
  Step-IsSealed (gets app scope name s) h =
      let (p, q) = get_entry-Unchanged app scope name s in same-IsSealed p q h
  Step-IsSealed (gets_all app scope s) h =
      let (p, q) = get_entries-Unchanged app scope s in same-IsSealed p q h
  Step-IsSealed (deletes app scope name s) h = delete_entry-IsSealed app scope name s h

  -- On a lawful table, from a state whose secrets are sealed, every run keeps them so: in each
  -- scope in memory and in each row, an entry that is to be encrypted is a text that the encryptor
  -- has returned.
  pub Reach-IsSealed : {s t : StorageService G E} → Reach s t → IsSealed s → IsSealed t
  Reach-IsSealed here h = h
  Reach-IsSealed (next r st) h = Step-IsSealed st (Reach-IsSealed r h)

-- A service that has loaded nothing, as NewStorageService returns it.
unfoldable pub new_service : {G : Gorm} {E : Encryptor} → G.Db → E.World → StorageService G E
new_service db world = record { db = db; ds = []; world = world }
