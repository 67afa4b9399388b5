-- ===== src/Runner/Watch/Noticed.antt =====
-- From a Write on the SQL storage to the message that stops another service's child.
use kaigara.Base.{
  zero, suc, ◌≡◌, ◌≢◌, ◌⊎◌, inl, inr, refl, ap, false, none, some, List, [], ◌∷◌, Str, arith, All,
  Among, Bool-cases, Option-cases,
}
use kaigara.Base.Dict
use kaigara.Base.Exec.{Outcome, Error, ok, err, db_check, scope_not_loaded, version_not_int64}
use kaigara.Base.Int64.{ℤ, negsuc, pos, add_one, int_eq}
use kaigara.Encryptor.{Encryptor}
use kaigara.Storage.Memory.{scope_of}
use kaigara.Storage.Gorm.{Gorm, IsTable, Data, row, Found-cases}
use kaigara.Storage.Sql.{
  StorageService, sql_storage, version_key, as_int64, write, get_current_version,
  get_latest_version,
}
use kaigara.Storage.Sql.Persist.{write_noticed}
use kaigara.Runner.Watch.{Change, check_scope, check_scopes, check_apps}
use kaigara.Runner.Watch.Laws.{AllReturn, IsQuiet, check_apps_complete}

int_eq-add_one : (n : ℤ) → int_eq n (add_one n) ≡ false
unfolding int_eq add_one
int_eq-add_one (pos n) = ground arith
int_eq-add_one (negsuc zero) = ground arith
int_eq-add_one (negsuc (suc n)) = ground arith

-- What a request for a version gives, 0 for an error.
abbrev version_given : Outcome ℤ → ℤ
version_given (ok n) = n
version_given _ = pos 0

module _ {G : Gorm} {E : Encryptor} where
  current_state :
      (app scope : Str) (s : StorageService G E) → (get_current_version app scope s).1 ≡ s
  unfolding get_current_version
  current_state app scope s = ground arith

  latest_state : (app scope : Str) (s : StorageService G E) → (get_latest_version app scope s).1 ≡ s
  unfolding get_latest_version
  latest_state app scope s = ground arith

  -- Another service's Write, as this one sees it.
  abbrev pub publish : Str → Str → StorageService G E → StorageService G E → StorageService G E
  publish app scope s t = record t { db = (write app scope s).1.db }

  pub current_of-publish :
      (app scope : Str) (s t : StorageService G E)
      → (get_current_version app scope (publish app scope s t)).0
        ≡ (get_current_version app scope t).0
  unfolding get_current_version
  current_of-publish app scope s t = ground arith

  -- The service gets both versions of the scope.
  abbrev pub Answers : Str → StorageService G E → Str → Type 0
  Answers app t scope =
      (current : ℤ) × (latest : ℤ) × ((get_current_version app scope t).0 ≡ ok current)
      × ((get_latest_version app scope t).0 ≡ ok latest)

  abbrev current_given : Str → StorageService G E → Str → ℤ
  current_given app t scope = version_given (get_current_version app scope t).0

  abbrev latest_given : Str → StorageService G E → Str → ℤ
  latest_given app t scope = version_given (get_latest_version app scope t).0

  All-Answers :
      (app : Str) (scopes : List Str) (t : StorageService G E)
      → All (Answers app t) scopes
      → AllReturn (sql_storage G E) t app (current_given app t) (latest_given app t) scopes
  All-Answers app [] t h = tt
  All-Answers app (scope ∷ scopes) t ((current, latest, here, there), h) = (
    record {
      gives_current = cc (here, current_state app scope t, ap version_given here);
      gives_latest = cc (there, latest_state app scope t, ap version_given there);
    },
    All-Answers app scopes t h,
  )

  get_current_version-cases :
      (app scope : Str) (t : StorageService G E)
      → ((n : ℤ) × (get_current_version app scope t ≡ (ok n, t)))
        ⊎ ((e : Error) × (get_current_version app scope t ≡ (err e, t)))
  unfolding get_current_version
  get_current_version-cases app scope t = elim (Option-cases (scope_of app scope t.ds)) [
    | inl e ↦ inr (scope_not_loaded, ground arith)
    | inr (m, e) ↦ elim (Option-cases (as_int64 (Dict.lookup version_key m))) [
      | inl f ↦ inr (version_not_int64, ground arith)
      | inr (n, f) ↦ inl (n, ground arith)
    ]
  ]

  get_latest_version-cases :
      (app scope : Str) (t : StorageService G E)
      → ((n : ℤ) × (get_latest_version app scope t ≡ (ok n, t)))
        ⊎ ((e : Error) × (get_latest_version app scope t ≡ (err e, t)))
  unfolding get_latest_version
  get_latest_version-cases app scope t = elim (Found-cases (G.first app scope t.db)) [
    | inl (m, e) ↦ inr (db_check m, ground arith)
    | inr (inl e) ↦ elim (get_current_version-cases app scope t) [
      | inl (n, f) ↦ inl (n, ground arith)
      | inr (x, f) ↦ inl (pos 0, ground arith)
    ]
    | inr (inr (old, e)) ↦ inl (old.version, ground arith)
  ]

  -- The poll does not panic on the SQL storage, and leaves it as it is.
  check_scopes-IsQuiet :
      (app : Str) (scopes : List Str) (t : StorageService G E)
      → IsQuiet (sql_storage G E) t scopes app
  unfolding check_scopes check_scope
  check_scopes-IsQuiet app [] t = (none, refl)
  check_scopes-IsQuiet app (scope ∷ scopes) t =
      let (o, rest) = check_scopes-IsQuiet app scopes t in
      elim (get_current_version-cases app scope t) [
        | inr (x, e) ↦ (none, ground arith)
        | inl (current, e) ↦ elim (get_latest_version-cases app scope t) [
          | inr (x, f) ↦ (none, ground arith)
          | inl (latest, f) ↦ elim (Bool-cases (int_eq current latest)) [
            | inl same ↦ (o, ground arith)
            | inr differ ↦ (
              some (record { app = app; scope = scope; current = current; latest = latest }),
              ground arith,
            )
          ]
        ]
      ]

  All-IsQuiet :
      (apps scopes : List Str) (t : StorageService G E)
      → All (IsQuiet (sql_storage G E) t scopes) apps
  All-IsQuiet [] scopes t = tt
  All-IsQuiet (app ∷ apps) scopes t = (check_scopes-IsQuiet app scopes t, All-IsQuiet apps scopes t)

  -- A Write over an existing row, not at version -1, of a lawful table is seen by the services that have
  -- loaded it: once it has succeeded, the next poll, of any applications and scopes with these among them,
  -- by a service that still has the old version and gets both versions of each scope of the application
  -- ends with a change.
  pub check_apps-write :
      (app scope : Str) (apps scopes : List Str) (old : Data) (s t : StorageService G E)
      → IsTable G
      → G.first app scope s.db ≡ row old
      → old.version ≢ negsuc 0
      → (write app scope s).0 ≡ ok tt
      → (get_current_version app scope t).0 ≡ ok old.version
      → t.db ≡ (write app scope s).1.db
      → Among app apps
      → Among scope scopes
      → All (Answers app t) scopes
      → (c : Change) × (check_apps (sql_storage G E) apps scopes t ≡ (ok (some c), t))
  check_apps-write app scope apps scopes old s t table found ordinary done current same a b
        answers =
      let (latest, _) = write_noticed table app scope old s t found ordinary done current same in
      let differ : int_eq (current_given app t scope) (latest_given app t scope) ≡ false =
        rw (current, latest) (int_eq-add_one old.version) in
      check_apps_complete (sql_storage G E) app scope apps scopes (current_given app t)
        (latest_given app t) t a b (All-Answers app scopes t answers) differ
        (All-IsQuiet apps scopes t)
