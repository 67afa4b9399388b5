-- ===== src/Storage/Sql/Persist.antt =====
-- Write against Read: what a Write puts into the database, another service reads.
use kaigara.Base.{
  ◌≡◌, ◌≢◌, refl, ap, ◌∙◌, none, Str, arith, str_eq, if◌then◌else◌, Option-cases, inl, inr,
}
use kaigara.Base.Dict
use kaigara.Base.Dict.{Dict, NodupKeys, insert-NodupKeys}
use kaigara.Base.Exec.{Outcome, ok}
use kaigara.Base.Int64.{ℤ, negsuc, add_one}
use kaigara.Value.{Value}
use kaigara.Value.Laws.{reloaded}
use kaigara.Encryptor.{Encryptor}
use kaigara.Storage.Memory.{scope_of}
use kaigara.Storage.Gorm.{Gorm, IsTable, Data, row}
use kaigara.Storage.Sql.{
  StorageService, version_key, as_int64, entries_of, put_scope, make_scope, load_row, data_of, read,
  write, write_update, get_current_version, get_latest_version,
}
use kaigara.Storage.Sql.Entries.{stored, entries_of-set_scope_self}
use kaigara.Storage.Sql.Saved.{
  add_one-ne, loaded_entries, lookup-loaded_entries, NotMinusOne, IsSaved, update-IsSaved,
  write-IsSaved,
}

module _ {G : Gorm} {E : Encryptor} (table : IsTable G) where
  read_of_saved :
      (app scope : Str) (m : Dict Value) (version : ℤ) (t : StorageService G E)
      → G.first app scope t.db ≡ row (data_of app scope m version)
      → read app scope t
        ≡ (ok tt, put_scope app scope (loaded_entries m version) (make_scope app scope t))
  unfolding read load_row
  read_of_saved app scope m version t e = ground arith

  -- A Read of a row that a Write has left.
  pub read-write_of_row :
      (app scope : Str) (s t : StorageService G E)
      → NodupKeys (entries_of app scope (write app scope s).1.ds)
      → NotMinusOne app scope s
      → (write app scope s).0 ≡ ok tt
      → G.first app scope t.db ≡ G.first app scope (write app scope s).1.db
      → ((read app scope t).0 ≡ ok tt)
        × ((k : Str)
            → stored app scope k (read app scope t).1 ≡ (
                if str_eq version_key k
                then stored app scope k (write app scope s).1
                else reloaded (stored app scope k (write app scope s).1) none))
  unfolding stored put_scope
  read-write_of_row app scope s t nodup v h same =
      let w = (write app scope s).1 in
      let (version, saved) = write-IsSaved table app scope s v h in
      let m = entries_of app scope w.ds in
      let step = read_of_saved app scope m version t (same ∙ saved.in_database) in
      rw step (
        refl,
        λ k. rw entries_of-set_scope_self (lookup-loaded_entries k m version nodup saved.in_memory),
      )

  -- After a Write that succeeds on a lawful table, a Read of the scope by any service on that
  -- database succeeds, and gives the version and, up to one pass through JSON, each entry that the
  -- writer has in memory, where no key stands there twice and no row of the scope was at version
  -- -1.
  pub read-write :
      (app scope : Str) (s t : StorageService G E)
      → NodupKeys (entries_of app scope (write app scope s).1.ds)
      → NotMinusOne app scope s
      → (write app scope s).0 ≡ ok tt
      → t.db ≡ (write app scope s).1.db
      → ((read app scope t).0 ≡ ok tt)
        × ((k : Str)
            → stored app scope k (read app scope t).1 ≡ (
                if str_eq version_key k
                then stored app scope k (write app scope s).1
                else reloaded (stored app scope k (write app scope s).1) none))
  read-write app scope s t nodup v h same =
      read-write_of_row app scope s t nodup v h (ap (λ db. G.first app scope db) same)

  latest_of_saved :
      (app scope : Str) {version : ℤ} (s t : StorageService G E)
      → IsSaved table app scope version s
      → t.db ≡ s.db
      → (get_latest_version app scope t).0 ≡ ok version
  unfolding get_latest_version
  latest_of_saved app scope {version} s t saved same =
      let found : G.first app scope t.db
          ≡ row (data_of app scope (entries_of app scope s.ds) version) =
        rw same saved.in_database in
      ground (arith, found)

  current_of_saved :
      (app scope : Str) {version : ℤ} (s : StorageService G E)
      → IsSaved table app scope version s
      → (get_current_version app scope s).0 ≡ ok version
  unfolding get_current_version stored entries_of as_int64 Dict.lookup
  current_of_saved app scope s saved = elim (Option-cases (scope_of app scope s.ds)) [
    | inl e ↦ ground (arith, saved.in_memory)
    | inr (m, e) ↦ ground (arith, saved.in_memory)
  ]

  -- After a Write that succeeds on a lawful table, where no row of the scope was at version -1,
  -- the writer's current version is the latest one in the database, so its own poll sees no
  -- change.
  pub latest-eq-current_of_write :
      (app scope : Str) (s : StorageService G E)
      → NotMinusOne app scope s
      → (write app scope s).0 ≡ ok tt
      → let w = (write app scope s).1 in
        (version : ℤ) × ((get_current_version app scope w).0 ≡ ok version)
        × ((get_latest_version app scope w).0 ≡ ok version)
  latest-eq-current_of_write app scope s v h =
      let w = (write app scope s).1 in
      let (version, saved) = write-IsSaved table app scope s v h in
      (version, current_of_saved app scope w saved, latest_of_saved app scope w w saved refl)

  write_version :
      (app scope : Str) (old : Data) (s : StorageService G E)
      → G.first app scope s.db ≡ row old
      → (write app scope s).0 ≡ ok tt
      → write app scope s ≡ write_update app scope old s
  unfolding write
  write_version app scope old s e h = ground arith

  -- A Write over an existing row, not at version -1, of a lawful table is noticed by every service
  -- that has the row's old version: once it has succeeded, the latest version is the old one plus
  -- one, and differs from their current one.
  pub write_noticed :
      (app scope : Str) (old : Data) (s t : StorageService G E)
      → G.first app scope s.db ≡ row old
      → old.version ≢ negsuc 0
      → (write app scope s).0 ≡ ok tt
      → (get_current_version app scope t).0 ≡ ok old.version
      → t.db ≡ (write app scope s).1.db
      → ((get_latest_version app scope t).0 ≡ ok (add_one old.version))
        × ((get_latest_version app scope t).0 ≢ (get_current_version app scope t).0)
  write_noticed app scope old s t e v h current same =
      let step = write_version app scope old s e h in
      let saved = update-IsSaved table app scope old s e v (rw step at h) in
      let latest =
        latest_of_saved app scope _ t saved
          (same ∙ ap (λ (r : Outcome (Unit {0}) × StorageService G E). r.1.db) step) in
      (latest, λ p. add_one-ne old.version (cc (latest, current, p)))
