-- ===== src/Storage/Sql/Reread.antt =====
-- Read, once more: by another service on the same database, and of entries that have come from JSON.
use kaigara.Base.{◌≡◌, refl, false, Option, none, some, Str, arith, str_eq, inl, inr}
use kaigara.Base.Dict
use kaigara.Base.Dict.{Dict}
use kaigara.Base.Exec.{ok, Outcome-cases}
use kaigara.Base.Int64.{ℤ}
use kaigara.Value.{
  Value, int64, Json, j_object, Members, no_member, member, of_json, unmarshal_into, reload,
}
use kaigara.Value.Laws.{reloaded, to_json-of_json}
use kaigara.Encryptor.{Encryptor}
use kaigara.Storage.Gorm.{Gorm, Found-cases}
use kaigara.Storage.Sql.{StorageService, version_key, fresh_entries, load_row, put_scope, read}
use kaigara.Storage.Sql.Entries.{stored, entries_of-set_scope_self}

-- A pass through JSON does not change it.
abbrev IsStable : Option Value → Type 0
IsStable o = reloaded o none ≡ o

unmarshal_into-IsStable :
    (k : Str) (ms : Members) (base : Dict Value)
    → IsStable (Dict.lookup k base)
    → IsStable (Dict.lookup k (unmarshal_into ms base))
unfolding unmarshal_into reload
unmarshal_into-IsStable k no_member base h = h
unmarshal_into-IsStable k (member j v ms) base h =
    unmarshal_into-IsStable k ms (Dict.insert j (of_json v) base)
      (ground (arith, Dict.lookup-insert j k (of_json v) base, to_json-of_json v, h))

fresh_entries-IsStable :
    (k : Str) → str_eq version_key k ≡ false → IsStable (Dict.lookup k fresh_entries)
unfolding Dict.lookup
fresh_entries-IsStable k h = ground arith

load_row-IsStable :
    (k : Str) (column : Option Json) (version : ℤ) (val : Dict Value)
    → str_eq version_key k ≡ false
    → load_row column version ≡ ok val
    → IsStable (Dict.lookup k val)
unfolding load_row
load_row-IsStable k (some (j_object ms)) version val h e =
    let entries = unmarshal_into ms fresh_entries in
    let is : Dict.insert version_key (int64 version) entries ≡ val = ground arith in
    rw (← is, Dict.lookup-insert, h)
      (unmarshal_into-IsStable k ms fresh_entries (fresh_entries-IsStable k h))
load_row-IsStable k none version val h e = ground arith
load_row-IsStable k (some _) version val h e = ground arith

module _ {G : Gorm} {E : Encryptor} where
  -- What a Read has loaded, the version aside, a pass through JSON does not change.
  pub read-IsStable :
      (app scope k : Str) (s : StorageService G E)
      → str_eq version_key k ≡ false
      → (read app scope s).0 ≡ ok tt
      → reloaded (stored app scope k (read app scope s).1) none
        ≡ stored app scope k (read app scope s).1
  unfolding read stored put_scope
  read-IsStable app scope k s ordinary h = elim (Found-cases (G.first app scope s.db)) [
    | inl (m, e) ↦ ground arith
    | inr (inl e) ↦ rw (e, read, entries_of-set_scope_self) (fresh_entries-IsStable k ordinary)
    | inr (inr (d, e)) ↦ elim (Outcome-cases (load_row d.value d.version)) [
      | inl (val, l) ↦
          rw (e, l, read, entries_of-set_scope_self)
            (load_row-IsStable k d.value d.version val ordinary l)
      | inr l ↦ ground arith
    ]
  ]

  -- Two services whose databases have the same row for the scope load the same entries.
  pub read-same :
      (app scope k : Str) (s t : StorageService G E)
      → G.first app scope t.db ≡ G.first app scope s.db
      → (read app scope s).0 ≡ ok tt
      → ((read app scope t).0 ≡ ok tt)
        × (stored app scope k (read app scope t).1 ≡ stored app scope k (read app scope s).1)
  unfolding read stored put_scope
  read-same app scope k s t same h = elim (Found-cases (G.first app scope s.db)) [
    | inl (m, e) ↦ ground arith
    | inr (inl e) ↦
        rw (same, e, read, entries_of-set_scope_self, entries_of-set_scope_self) (refl, refl)
    | inr (inr (d, e)) ↦ elim (Outcome-cases (load_row d.value d.version)) [
      | inl (val, l) ↦
          rw (same, e, l, read, entries_of-set_scope_self, entries_of-set_scope_self) (refl, refl)
      | inr l ↦ ground arith
    ]
  ]
