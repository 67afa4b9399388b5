-- ===== src/Storage/Sql/Saved.antt =====
-- Write: after one that succeeds, the row of the scope is what the service has in memory.
use kaigara.Base.{
  zero, suc, ◌≡◌, ◌≢◌, refl, false, Option, none, some, Str, arith, str_eq, str_eq_iff, str_eq_refl,
  if◌then◌else◌, Option-cases, inl, inr,
}
use kaigara.Base.Dict
use kaigara.Base.Dict.{Dict, NodupKeys, insert-NodupKeys}
use kaigara.Base.Exec.{ok}
use kaigara.Base.Int64.{ℤ, pos, negsuc, add_one, int_eq}
use kaigara.Value.{Value, int64, marshal, unmarshal_into}
use kaigara.Value.Laws.{reloaded, lookup-unmarshal_into-marshal}
use kaigara.Encryptor.{Encryptor}
use kaigara.Storage.Gorm.{Gorm, IsTable, Data, row, not_found, Found-cases}
use kaigara.Storage.Sql.{
  StorageService, version_key, as_int64, entries_of, put_scope, fresh_entries, data_of, write,
  write_create, write_update,
}
use kaigara.Storage.Sql.Entries.{stored, entries_of-set_scope_self}

as_int64-eq-some : (o : Option Value) {n : ℤ} → as_int64 o ≡ some n → o ≡ some (int64 n)
unfolding as_int64
as_int64-eq-some (some (int64 m)) h = ground arith
as_int64-eq-some none h = ground arith
as_int64-eq-some (some _) h = ground arith

add_one-not-zero : (n : ℤ) → n ≢ negsuc 0 → int_eq (add_one n) (pos 0) ≡ false
unfolding add_one int_eq
add_one-not-zero (pos n) h = ground arith
add_one-not-zero (negsuc zero) h = absurd (h refl)
add_one-not-zero (negsuc (suc n)) h = ground arith

pub add_one-ne : (n : ℤ) → add_one n ≢ n
unfolding add_one
add_one-ne (pos n) h = ground arith
add_one-ne (negsuc zero) h = ground arith
add_one-ne (negsuc (suc n)) h = ground arith

-- What a row of these entries loads as.
abbrev pub loaded_entries : Dict Value → ℤ → Dict Value
loaded_entries m version =
    Dict.insert version_key (int64 version) (unmarshal_into (marshal m) fresh_entries)

pub lookup-loaded_entries :
    (k : Str) (m : Dict Value) (version : ℤ)
    → NodupKeys m
    → Dict.lookup version_key m ≡ some (int64 version)
    → Dict.lookup k (loaded_entries m version)
      ≡ (if str_eq version_key k then Dict.lookup k m else reloaded (Dict.lookup k m) none)
unfolding Dict.lookup
lookup-loaded_entries k m version nodup v = rw Dict.lookup-insert (
    ground (arith, lookup-unmarshal_into-marshal k m fresh_entries nodup, str_eq_iff version_key k))

module _ {G : Gorm} {E : Encryptor} where
  -- No row of the scope is at version -1, which would make its next version a zero field.
  abbrev pub NotMinusOne : Str → Str → StorageService G E → Type 0
  NotMinusOne app scope s = (old : Data) → G.first app scope s.db ≡ row old → old.version ≢ negsuc 0

module _ {G : Gorm} {E : Encryptor} (table : IsTable G) where
  -- The row of a scope is what the service has in memory, at the version that it has in memory.
  pub record IsSaved (app scope : Str) (version : ℤ) (s : StorageService G E) : Type 0 where
    pub in_memory : stored app scope version_key s ≡ some (int64 version)
    pub in_database :
        G.first app scope s.db ≡ row (data_of app scope (entries_of app scope s.ds) version)

  create-IsSaved :
      (app scope : Str) (ver : ℤ) (s : StorageService G E)
      → as_int64 (Dict.lookup version_key (entries_of app scope s.ds)) ≡ some ver
      → G.first app scope s.db ≡ not_found
      → (write_create app scope ver s).0 ≡ ok tt
      → IsSaved app scope ver (write_create app scope ver s).1
  unfolding write_create stored
  create-IsSaved app scope ver s v e h = record {
    in_memory = as_int64-eq-some _ v;
    in_database =
        let d = data_of app scope (entries_of app scope s.ds) ver in
        let no_error : (G.create d s.db).0 ≡ none = ground arith in
        rw (table.first-create d s.db e no_error app scope, str_eq_refl app, str_eq_refl scope);
  }

  pub update-IsSaved :
      (app scope : Str) (old : Data) (s : StorageService G E)
      → G.first app scope s.db ≡ row old
      → old.version ≢ negsuc 0
      → (write_update app scope old s).0 ≡ ok tt
      → IsSaved app scope (add_one old.version) (write_update app scope old s).1
  unfolding write_update stored put_scope
  update-IsSaved app scope old s e v h =
      let version = add_one old.version in
      let val = Dict.insert version_key (int64 version) (entries_of app scope s.ds) in
      let d = data_of app scope val version in
      let no_error : (G.updates old d s.db).0 ≡ none = ground arith in
      let written = table.first-updates old d s.db e no_error app scope in
      record {
        in_memory =
            rw entries_of-set_scope_self (Dict.lookup-insert_self version_key (int64 version) _);
        in_database =
            rw entries_of-set_scope_self
              (rw (written, str_eq_refl app, str_eq_refl scope, add_one-not-zero old.version v));
      }

  pub write-IsSaved :
      (app scope : Str) (s : StorageService G E)
      → NotMinusOne app scope s
      → (write app scope s).0 ≡ ok tt
      → (version : ℤ) × IsSaved app scope version (write app scope s).1
  unfolding write
  write-IsSaved app scope s v h =
      elim (Option-cases (as_int64 (Dict.lookup version_key (entries_of app scope s.ds)))) [
        | inl unversioned ↦ ground arith
        | inr (ver, versioned) ↦ elim (Found-cases (G.first app scope s.db)) [
          | inl (m, e) ↦ ground arith
          | inr (inl e) ↦
              let step : write app scope s ≡ write_create app scope ver s = ground arith in
              (ver, rw step (create-IsSaved app scope ver s versioned e (rw step at h)))
          | inr (inr (old, e)) ↦
              let step : write app scope s ≡ write_update app scope old s = ground arith in
              (
                add_one old.version,
                rw step (update-IsSaved app scope old s e (v old e) (rw step at h)),
              )
        ]
      ]
