-- ===== src/Commands/Kaisave/Sql.antt =====
-- kaisave on the SQL storage: what another service reads after it.
use kaigara.Base.{
  ◌≡◌, refl, ◌∙◌, false, none, some, [], ◌∷◌, Str, arith, str_eq, str_eq_iff, str_eq_refl,
  Bool-cases, inl, inr, subst,
}
use kaigara.Base.Dict
use kaigara.Base.Dict.{Dict, NodupKeys}
use kaigara.Base.Exec.{Outcome, Outcome-cases, ok, continue}
use kaigara.Value.{Value}
use kaigara.Encryptor.{Encryptor}
use kaigara.Storage.Gorm.{Gorm}
use kaigara.Storage.Sql.{StorageService, sql_storage, set_entry}
use kaigara.Storage.Sql.Entries.{stored}
use kaigara.Storage.Sql.SetGet.{set_entry-other}
use kaigara.Commands.Kaisave.{save_entries}
use kaigara.Storage.Sql.Holds.{Holds, set_entry-Holds, transfer}

module _ {G : Gorm} {E : Encryptor} where
  abbrev pub saving :
      Str → Str → Dict Value → StorageService G E → Outcome (Unit {0}) × StorageService G E
  saving app scope entries = save_entries (sql_storage G E) app scope entries

  pub saving-cons :
      (app scope k : Str) (v : Value) (entries : Dict Value) (s : StorageService G E)
      → (saving app scope ((k, v) ∷ entries) s).0 ≡ ok tt
      → ((set_entry app scope k v s).0 ≡ ok tt)
        × (saving app scope ((k, v) ∷ entries) s
            ≡ saving app scope entries (set_entry app scope k v s).1)
  unfolding save_entries
  saving-cons app scope k v entries s h = elim (Outcome-cases (set_entry app scope k v s).0) [
    | inl (_, e) ↦ (e, rw (e, continue))
    | inr e ↦ ground arith
  ]

  saving-other :
      (app scope name : Str) (entries : Dict Value) (s : StorageService G E)
      → Dict.lookup name entries ≡ none
      → (saving app scope entries s).0 ≡ ok tt
      → stored app scope name (saving app scope entries s).1 ≡ stored app scope name s
  unfolding Dict.lookup
  saving-other app scope name [] s absent h = unfold save_entries in refl
  saving-other app scope name ((k, v) ∷ entries) s absent h =
      let (done, step) = saving-cons app scope k v entries s h in
      let differ : str_eq k name ≡ false = ground arith in
      let kept =
        set_entry-other app scope k app scope name v s done
          (rw (str_eq_refl app, str_eq_refl scope, differ)) in
      rw step (
        saving-other app scope name entries (set_entry app scope k v s).1 (ground arith)
          (rw step at h)
        ∙ kept.0)

  pub saving-Holds :
      (app scope name : Str) (v : Value) (entries : Dict Value) (s : StorageService G E)
      → NodupKeys entries
      → Dict.lookup name entries ≡ some v
      → (saving app scope entries s).0 ≡ ok tt
      → Holds app scope name v (saving app scope entries s).1
  unfolding Dict.lookup
  saving-Holds app scope name v [] s u found h = ground arith
  saving-Holds app scope name v ((k, w) ∷ entries) s u found h =
      let (done, step) = saving-cons app scope k w entries s h in
      let t = (set_entry app scope k w s).1 in
      rw step (elim (Bool-cases (str_eq k name)) [
        | inr differ ↦ saving-Holds app scope name v entries t u.1 (ground arith) (rw step at h)
        | inl same ↦
            let key : k ≡ name = (str_eq_iff k name).0 same in
            let value : w ≡ v = ground arith in
            let absent : Dict.lookup name entries ≡ none = rw (← key) u.0 in
            let held = set_entry-Holds app scope k w s done in
            transfer app scope name v t _
              (saving-other app scope name entries t absent (rw step at h))
              (subst (λ x. Holds app scope name x t) value
                (subst (λ x. Holds app scope x w t) key held))
      ])
