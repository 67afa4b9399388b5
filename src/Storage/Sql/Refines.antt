-- ===== src/Storage/Sql/Refines.antt =====
-- The SQL service keeps what a storage promises of its entries, whatever it encrypts.
use kaigara.Base.{
  ◌≡◌, sym, ◌∙◌, ap, ◌&&◌, Option, none, some, List, Str, arith, str_eq, Bool-cases, ◌⊎◌, inl, inr,
}
use kaigara.Base.Dict
use kaigara.Base.Exec.{ok}
use kaigara.Value.{Value}
use kaigara.Encryptor.{Encryptor, IsFaithful}
use kaigara.Storage.Plain.{same_names, Plain, update, Command, run, replay, Implements, run_refines}
use kaigara.Storage.Plain.Raw.{
  Counterpart-cases, RawRepresents, same-RawRepresents, update-RawRepresents,
}
use kaigara.Storage.Gorm.{Gorm}
use kaigara.Storage.Sql.{
  StorageService, sql_storage, entries_of, set_entry, get_entry, delete_entry,
}
use kaigara.Storage.Sql.Entries.{stored}
use kaigara.Storage.Sql.SetGet.{set_entry-other}
use kaigara.Storage.Sql.Holds.{StandsFor, Holds, set_entry-Holds, get_entry-Holds}
use kaigara.Storage.Sql.Delete.{get_entry_of_missing, stored-delete_entry}
use kaigara.Storage.Sql.Steps.{get_entry-Unchanged}

module _ {G : Gorm} {E : Encryptor} where
  abbrev raw : StorageService G E → Plain
  raw s app scope name = stored app scope name s

  -- Every entry that is stored stands for the one of the map, and there are no others.
  abbrev pub Represents : StorageService G E → Plain → Type 0
  Represents = RawRepresents raw (λ s. StandsFor E)

  stored-set_entry :
      (app scope name : Str) (v r : Value) (s : StorageService G E)
      → (set_entry app scope name v s).0 ≡ ok tt
      → stored app scope name (set_entry app scope name v s).1 ≡ some r
      → (app' scope' name' : Str)
      → stored app' scope' name' (set_entry app scope name v s).1
        ≡ update app scope name (some r) (raw s) app' scope' name'
  stored-set_entry app scope name v r s done self app' scope' name' =
      elim (Bool-cases (str_eq app app' && (str_eq scope scope' && str_eq name name'))) [
        | inl here ↦
            let (a, c, n) = same_names app scope name app' scope' name' here in
            rw (here, ← a, ← c, ← n) self
        | inr other ↦ rw other (set_entry-other app scope name app' scope' name' v s done other).0
      ]

  pub set_entry-Represents :
      (app scope name : Str) (v : Value) (s : StorageService G E) (m : Plain)
      → Represents s m
      → (set_entry app scope name v s).0 ≡ ok tt
      → Represents (set_entry app scope name v s).1 (update app scope name (some v) m)
  set_entry-Represents app scope name v s m h done =
      let held = set_entry-Holds app scope name v s done in
      update-RawRepresents raw (λ s. StandsFor E) app scope name (some held.raw) (some v) s _ m
        (stored-set_entry app scope name v held.raw s done held.is_stored) held.stands_for
        (λ app' scope' name' r v' k. k) h

  -- An entry that is missing, or one that is held.
  pub entry-cases :
      (app scope name : Str) (s : StorageService G E) (m : Plain)
      → Represents s m
      → ((m app scope name ≡ none) × (stored app scope name s ≡ none))
        ⊎ ((v : Value) × (m app scope name ≡ some v) × Holds app scope name v s)
  entry-cases app scope name s m h =
      elim (Counterpart-cases raw (λ s. StandsFor E) s app scope name _ _ (h app scope name)) [
        | inl (d, e) ↦ inl (e, d)
        | inr (r, v, d, e, k) ↦ inr (v, e, record { raw = r; is_stored = d; stands_for = k })
      ]

  -- What GetEntry gives of an entry, if it gives something.
  pub get_entry-Represents :
      (app scope name : Str) (answer : Option Value) (s : StorageService G E) (m : Plain)
      → IsFaithful E
      → Represents s m
      → (get_entry app scope name s).0 ≡ ok answer
      → (answer ≡ m app scope name) × Represents (get_entry app scope name s).1 m
  unfolding stored
  get_entry-Represents app scope name answer s m faithful h done =
      let same = (get_entry-Unchanged app scope name s).0 in
      (
        elim (entry-cases app scope name s m h) [
          | inl (e, is) ↦ get_entry_of_missing app scope name answer s is done ∙ sym e
          | inr (v, e, held) ↦ ground (arith, get_entry-Holds app scope name v s faithful held)
        ],
        same-RawRepresents raw (λ s. StandsFor E) s (get_entry app scope name s).1 m
            (λ app' scope' name'. ap (λ ds. Dict.lookup name' (entries_of app' scope' ds)) same)
            (λ app' scope' name' r v' k. k) h,
      )

  pub delete_entry-Represents :
      (app scope name : Str) (s : StorageService G E) (m : Plain)
      → Represents s m
      → Represents (delete_entry app scope name s).1 (update app scope name none m)
  delete_entry-Represents app scope name s m h =
      update-RawRepresents raw (λ s. StandsFor E) app scope name none none s _ m
        (λ app' scope' name'. stored-delete_entry app scope name app' scope' name' s) tt
        (λ app' scope' name' r v' k. k) h

  sql_storage-Implements : IsFaithful E → Implements (sql_storage G E) Represents
  sql_storage-Implements faithful = record {
    sets = λ app scope name v s m h done. set_entry-Represents app scope name v s m h done;
    gets = λ app scope name answer s m h done.
        get_entry-Represents app scope name answer s m faithful h done;
    deletes = λ app scope name s m h done. delete_entry-Represents app scope name s m h;
  }

  -- The encryption of the SQL service cannot be seen: with a faithful encryptor, every run of SetEntry,
  -- GetEntry and DeleteEntry that succeeds answers as a map of plain values does, and at its end the
  -- service represents that map.
  pub sql_run_refines :
      (commands : List Command) (answers : List (Option Value)) (s : StorageService G E) (m : Plain)
      → IsFaithful E
      → Represents s m
      → (run (sql_storage G E) commands s).0 ≡ ok answers
      → (answers ≡ (replay commands m).0)
        × Represents (run (sql_storage G E) commands s).1 (replay commands m).1
  sql_run_refines commands answers s m faithful =
      run_refines (sql_storage G E) Represents (sql_storage-Implements faithful) commands answers s
        m
