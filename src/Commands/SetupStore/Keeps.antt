-- ===== src/Commands/SetupStore/Keeps.antt =====
-- The defaults of a store do not replace what it has.
use kaigara.Base.{
  ◌≡◌, refl, sym, ap, ◌∙◌, Bool, true, false, Option, none, some, Str, [], ◌∷◌, arith, str_eq,
  str_eq_iff, str_eq_refl, if◌then◌else◌, Option-cases, inl, inr,
}
use kaigara.Base.Dict
use kaigara.Base.Dict.{Dict}
use kaigara.Base.Exec.{Exec, Outcome, Outcome-cases, ok, must}
use kaigara.Value.{Value, text}
use kaigara.Value.Laws.{reloaded}
use kaigara.Encryptor.{Encryptor}
use kaigara.Storage.Gorm.{Gorm, IsTable}
use kaigara.Storage.Sql.{
  StorageService, sql_storage, version_key, entries_of, read, write, set_entry, get_entries,
}
use kaigara.Storage.Sql.Entries.{stored}
use kaigara.Storage.Sql.SetGet.{set_entry-other}
use kaigara.Storage.Sql.Frame.{db-read, stored-write}
use kaigara.Storage.Sql.Sealed.{Sealed-NodupKeys}
use kaigara.Storage.Sql.Steps.{
  IsSealed, same-IsSealed, entries_of-Sealed, read-IsSealed, set_entry-IsSealed,
  get_entries-Unchanged,
}
use kaigara.Storage.Sql.Runs.{write-IsSealed}
use kaigara.Storage.Sql.Saved.{NotMinusOne}
use kaigara.Storage.Sql.Persist.{read-write}
use kaigara.Storage.Sql.Reread.{read-IsStable, read-same}
use kaigara.Commands.SetupStore.{set_missing, setup_scope}

module _ {G : Gorm} {E : Encryptor} where
  -- Sealed still, the same database, and the same entry.
  abbrev Kept : Str → Str → Str → StorageService G E → StorageService G E → Type 0
  Kept app scope name s t =
      (IsSealed s → IsSealed t)
      × (t.db ≡ s.db)
      × (stored app scope name t ≡ stored app scope name s)

  set_missing-Kept :
      (app scope name : Str) (x : Option Value) (defaults : Dict Str)
      (secrets : Dict (Option Value)) (is_save : Bool) {saved : Bool} (s : StorageService G E)
      → Dict.lookup name secrets ≡ some x
      → (set_missing (sql_storage G E) app scope defaults secrets is_save s).0 ≡ ok saved
      → Kept app scope name s (set_missing (sql_storage G E) app scope defaults secrets is_save s).1
  unfolding set_missing
  set_missing-Kept app scope name x [] secrets is_save s found h = (λ i. i, refl, refl)
  set_missing-Kept app scope name x ((key, val) ∷ defaults) secrets is_save s found h =
      elim (Option-cases (Dict.lookup key secrets)) [
        | inr (v, e) ↦
            rw (e, set_missing)
              (set_missing-Kept app scope name x defaults secrets is_save s found
                (rw (e, set_missing) at h))
        | inl e ↦ elim (Outcome-cases (set_entry app scope key (text val) s).0) [
          | inr f ↦ ground arith
          | inl (_, f) ↦
              let t = (set_entry app scope key (text val) s).1 in
              let differ : str_eq key name ≡ false = ground (arith, str_eq_iff key name) in
              let (kept, same) =
                set_entry-other app scope key app scope name (text val) s f
                  (rw (str_eq_refl app, str_eq_refl scope, differ)) in
              let step : set_missing (sql_storage G E) app scope ((key, val) ∷ defaults) secrets
                    is_save s
                  ≡ set_missing (sql_storage G E) app scope defaults secrets true t =
                ground arith in
              let (seals, db, entry) =
                set_missing-Kept app scope name x defaults secrets true t found (rw step at h) in
              rw step (
                λ i. seals (set_entry-IsSealed app scope key (text val) s i),
                db ∙ same,
                entry ∙ kept,
              )
        ]
      ]

  abbrev saving_if : Str → Str → Bool → Exec (StorageService G E) (Unit {0})
  saving_if app scope is_save = if is_save then must (write app scope) else (λ s. (ok tt, s))

  saving_if-eq-ok :
      (app scope : Str) (u : StorageService G E)
      → (saving_if app scope true u).0 ≡ ok tt
      → ((write app scope u).0 ≡ ok tt) × ((saving_if app scope true u).1 ≡ (write app scope u).1)
  saving_if-eq-ok app scope u h = elim (Outcome-cases (write app scope u).0) [
    | inr e ↦ ground arith
    | inl (_, e) ↦ (e, ground arith)
  ]

  -- A run that succeeds: a Read, the missing entries, and a Write if there were any.
  setup_scope-eq-ok :
      (app scope : Str) (defaults : Dict Str) (secrets : Dict (Option Value))
      (s : StorageService G E)
      → (get_entries app scope (read app scope s).1).0 ≡ ok secrets
      → (setup_scope (sql_storage G E) app scope defaults s).0 ≡ ok tt
      → let missing =
          set_missing
            (sql_storage G E)
            app
            scope
            defaults
            secrets
            false
            (get_entries app scope (read app scope s).1).1 in
        ((read app scope s).0 ≡ ok tt)
        × (is_save : Bool) × (missing.0 ≡ ok is_save)
        × (setup_scope (sql_storage G E) app scope defaults s
            ≡ saving_if app scope is_save missing.1)
  unfolding setup_scope
  setup_scope-eq-ok app scope defaults secrets s got h = elim (Outcome-cases (read app scope s).0) [
    | inr e ↦ ground arith
    | inl (_, e) ↦
        elim (Outcome-cases
          (set_missing (sql_storage G E) app scope defaults secrets false
            (get_entries app scope (read app scope s).1).1).0) [
              | inr f ↦ ground arith
              | inl (is_save, f) ↦ (e, is_save, f, ground arith)
            ]
  ]

module _ {G : Gorm} {E : Encryptor} (table : IsTable G) where
  -- What another service reads after the last step.
  saving_if-read :
      (app scope name : Str) (is_save : Bool) (s u t : StorageService G E)
      → IsSealed u
      → NotMinusOne app scope u
      → str_eq version_key name ≡ false
      → (read app scope s).0 ≡ ok tt
      → u.db ≡ s.db
      → stored app scope name u ≡ stored app scope name (read app scope s).1
      → (saving_if app scope is_save u).0 ≡ ok tt
      → t.db ≡ (saving_if app scope is_save u).1.db
      → ((read app scope t).0 ≡ ok tt)
        × (stored app scope name (read app scope t).1 ≡ stored app scope name (read app scope s).1)
  saving_if-read app scope name false s u t sealed old ordinary loaded db entry h same =
      read-same app scope name s t (ap (λ db. G.first app scope db) (same ∙ db)) loaded
  saving_if-read app scope name true s u t sealed old ordinary loaded db entry h same =
      let w = (write app scope u).1 in
      let (written, last) = saving_if-eq-ok app scope u h in
      let w_sealed = write-IsSealed table app scope u sealed in
      let (succeeds, loads) =
        read-write table app scope u t
          (Sealed-NodupKeys E scope _ (entries_of-Sealed E app scope w.ds w_sealed.memory)) old
          written (same ∙ ap (λ (x : StorageService G E). x.db) last) in
      (
        succeeds,
        rw ordinary at (loads name)
            ∙ ap (λ o. reloaded o none) (stored-write app scope name u ordinary ∙ entry)
            ∙ read-IsStable app scope name s ordinary loaded,
      )

  -- Where a scope could be read with an entry of this name, not the version's, even nil, any service that
  -- reads it from the database after a run of setupStore over it that succeeds has the entry as it was
  -- stored before: on a lawful table, for a sealed service, with no row of the scope at version -1.
  pub setup_scope-stored :
      (app scope name : Str) (x : Option Value) (defaults : Dict Str)
      (secrets : Dict (Option Value)) (s t : StorageService G E)
      → IsSealed s
      → NotMinusOne app scope s
      → (get_entries app scope (read app scope s).1).0 ≡ ok secrets
      → Dict.lookup name secrets ≡ some x
      → str_eq version_key name ≡ false
      → (setup_scope (sql_storage G E) app scope defaults s).0 ≡ ok tt
      → t.db ≡ (setup_scope (sql_storage G E) app scope defaults s).1.db
      → ((read app scope t).0 ≡ ok tt)
        × (stored app scope name (read app scope t).1 ≡ stored app scope name (read app scope s).1)
  unfolding stored
  setup_scope-stored app scope name x defaults secrets s t sealed old got found ordinary h same =
      let loaded = (read app scope s).1 in
      let (unchanged, untouched) = get_entries-Unchanged app scope loaded in
      let v = (get_entries app scope loaded).1 in
      let (reads, is_save, missing, step) = setup_scope-eq-ok app scope defaults secrets s got h in
      let u = (set_missing (sql_storage G E) app scope defaults secrets false v).1 in
      let (seals, db, entry) =
        set_missing-Kept app scope name x defaults secrets false v found missing in
      let u_db = db ∙ untouched ∙ db-read app scope s in
      saving_if-read app scope name is_save s u t
        (seals (same-IsSealed unchanged untouched (read-IsSealed app scope s sealed)))
        (λ d e. old d (sym (ap (λ db. G.first app scope db) u_db) ∙ e)) ordinary reads u_db
        (entry ∙ ap (λ ds. Dict.lookup name (entries_of app scope ds)) unchanged)
        (ap (λ r. r.0) (sym step) ∙ h)
        (same ∙ ap (λ (r : Outcome (Unit {0}) × StorageService G E). r.1.db) step)
