-- ===== src/Commands/Kaisave/Published.antt =====
-- kaisave on the SQL storage, end to end: what one run saves, every other service gets.
use kaigara.Base.{
  ◌≡◌, refl, ap, ◌∙◌, false, none, some, [], ◌∷◌, Str, arith, str_eq, inl, inr, subst,
}
use kaigara.Base.Dict
use kaigara.Base.Dict.{Dict, NodupKeys}
use kaigara.Base.Exec.{Outcome-cases, ok}
use kaigara.Value.{Value, reload, to_json, of_json}
use kaigara.Value.Laws.{reloaded}
use kaigara.Encryptor.{Encryptor, IsFaithful}
use kaigara.Storage.Gorm.{Gorm, IsTable, row}
use kaigara.Storage.Sql.{
  StorageService, sql_storage, version_key, read, write, set_entry, get_entry,
}
use kaigara.Storage.Sql.Entries.{stored}
use kaigara.Storage.Sql.Saved.{NotMinusOne}
use kaigara.Storage.Sql.Persist.{read-write_of_row}
use kaigara.Storage.Sql.Frame.{db-read, db-set_entry, stored-write}
use kaigara.Storage.Sql.Sealed.{Sealed-NodupKeys}
use kaigara.Storage.Sql.Steps.{IsSealed, entries_of-Sealed, read-IsSealed, set_entry-IsSealed}
use kaigara.Storage.Sql.Runs.{write-IsSealed}
use kaigara.Commands.Kaisave.{save_entries, save_scope}
use kaigara.Commands.Kaisave.Sql.{saving, saving-cons, saving-Holds}
use kaigara.Storage.Sql.Holds.{Holds, transfer, get_entry-Holds}

module _ {G : Gorm} {E : Encryptor} where
  pub saving-keeps :
      (app scope : Str) (entries : Dict Value) (s : StorageService G E)
      → (saving app scope entries s).0 ≡ ok tt
      → IsSealed s
      → IsSealed (saving app scope entries s).1 × ((saving app scope entries s).1.db ≡ s.db)
  saving-keeps app scope [] s h i = unfold save_entries in (i, refl)
  saving-keeps app scope ((k, v) ∷ entries) s h i =
      let (done, step) = saving-cons app scope k v entries s h in
      let t = (set_entry app scope k v s).1 in
      let (sealed, same) =
        saving-keeps app scope entries t (rw step at h) (set_entry-IsSealed app scope k v s i) in
      rw step (sealed, same ∙ db-set_entry app scope k v s)

  -- A value that was held is held, as reloaded, once written and read again.
  reloaded-Holds :
      (app scope name : Str) (v : Value) (s t : StorageService G E)
      → stored app scope name t ≡ reloaded (stored app scope name s) none
      → Holds app scope name v s
      → Holds app scope name (reload v) t
  unfolding reload to_json of_json
  reloaded-Holds app scope name v s t same h = record {
    raw = reload h.raw;
    is_stored = same ∙ rw h.is_stored;
    stands_for = elim h.stands_for [
      | inl (e, p) ↦ inl (e, ap reload p)
      | inr (e, p, c, w, value, raw, issued) ↦ inr (e, p, c, w, rw value, rw raw, issued)
    ];
  }

  pub save_scope-eq-ok :
      (app scope : Str) (entries : Dict Value) (s : StorageService G E)
      → (save_scope (sql_storage G E) app scope entries s).0 ≡ ok tt
      → let loaded = (read app scope s).1 in
        let filled = saving app scope entries loaded in
        (filled.0 ≡ ok tt)
        × ((write app scope filled.1).0 ≡ ok tt)
        × ((save_scope (sql_storage G E) app scope entries s).1 ≡ (write app scope filled.1).1)
  unfolding save_scope
  save_scope-eq-ok app scope entries s h =
      let loaded = (read app scope s).1 in
      let filled = saving app scope entries loaded in
      elim (Outcome-cases (read app scope s).0) [
        | inr e ↦ ground arith
        | inl (_, e) ↦ elim (Outcome-cases filled.0) [
          | inr f ↦ ground arith
          | inl (_, f) ↦ elim (Outcome-cases (write app scope filled.1).0) [
            | inr g ↦ ground arith
            | inl (_, g) ↦ (f, g, ground arith)
          ]
        ]
      ]

  -- Every service whose database has the row of this one for the scope holds the value, once it has read the scope.
  abbrev pub Publishes : Str → Str → Str → Value → StorageService G E → Type 0
  Publishes app scope name v s =
      (t : StorageService G E)
      → G.first app scope t.db ≡ G.first app scope s.db
      → Holds app scope name v (read app scope t).1

  pub save_scope-Publishes :
      (app scope name : Str) (v : Value) (entries : Dict Value) (s : StorageService G E)
      → IsTable G
      → IsSealed s
      → NotMinusOne app scope s
      → NodupKeys entries
      → Dict.lookup name entries ≡ some v
      → str_eq version_key name ≡ false
      → (save_scope (sql_storage G E) app scope entries s).0 ≡ ok tt
      → Publishes app scope name (reload v) (save_scope (sql_storage G E) app scope entries s).1
  save_scope-Publishes app scope name v entries s table sealed old nodup found ordinary h t same =
      let loaded = (read app scope s).1 in
      let (saved, written, final) = save_scope-eq-ok app scope entries s h in
      let u = (saving app scope entries loaded).1 in
      let w = (write app scope u).1 in
      let (u_sealed, u_db) =
        saving-keeps app scope entries loaded saved (read-IsSealed app scope s sealed) in
      let w_sealed = write-IsSealed table app scope u u_sealed in
      let held = saving-Holds app scope name v entries loaded nodup found saved in
      let kept = transfer app scope name v u w (stored-write app scope name u ordinary) held in
      let (_, loads) =
        read-write_of_row table app scope u t
          (Sealed-NodupKeys E scope _ (entries_of-Sealed E app scope w.ds w_sealed.memory))
          (λ d e. old d (subst (λ db. G.first app scope db ≡ row d) (u_db ∙ db-read app scope s) e))
          written (same ∙ ap (λ (x : StorageService G E). G.first app scope x.db) final) in
      reloaded-Holds app scope name v w _ (rw ordinary at (loads name)) kept

  -- After a run of kaisave over a scope that succeeds, any service on that database that reads the
  -- scope gets each entry of the file but the version, up to one pass through JSON: with a
  -- faithful encryptor, a lawful table, a sealed service, no row at version -1, and no key twice
  -- in the file.
  pub save_scope-get_entry :
      (app scope name : Str) (v : Value) (entries : Dict Value) (s t : StorageService G E)
      → IsTable G
      → IsFaithful E
      → IsSealed s
      → NotMinusOne app scope s
      → NodupKeys entries
      → Dict.lookup name entries ≡ some v
      → str_eq version_key name ≡ false
      → (save_scope (sql_storage G E) app scope entries s).0 ≡ ok tt
      → t.db ≡ (save_scope (sql_storage G E) app scope entries s).1.db
      → (get_entry app scope name (read app scope t).1).0 ≡ ok (some (reload v))
  save_scope-get_entry app scope name v entries s t table faithful sealed old nodup found ordinary h
        same =
      get_entry-Holds app scope name (reload v) _ faithful (
        save_scope-Publishes app scope name v entries s table sealed old nodup found ordinary h t
          (ap (λ db. G.first app scope db) same))
