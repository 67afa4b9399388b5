-- ===== src/Storage/Sql/Holds.antt =====
-- What the service has in memory for a value that was set: the value, or an encryption of its text.
use kaigara.Base.{◌≡◌, refl, ap, ◌∙◌, true, false, some, Str, Bool-cases, ◌⊎◌, inl, inr}
use kaigara.Base.Exec.{ok}
use kaigara.Value.{Value, text}
use kaigara.Encryptor.{Encryptor, IsFaithful}
use kaigara.Storage.Gorm.{Gorm}
use kaigara.Storage.Sql.{StorageService, is_encrypted, set_entry, get_entry}
use kaigara.Storage.Sql.Entries.{stored, set_entry_plain, set_entry_sealed, encrypting}
use kaigara.Storage.Sql.SetGet.{get_plain, get_sealed, stored-assign_self}

-- What is stored for a value: itself, or an encryption of its text.
abbrev pub StandsFor : Encryptor → Str → Str → Str → Value → Value → Type 0
StandsFor E app scope name raw v =
    ((is_encrypted scope name ≡ false) × (raw ≡ v))
    ⊎ ((is_encrypted scope name ≡ true)
        × (p : Str) × (c : Str) × (w : E.World) × (v ≡ text p)
        × (raw ≡ text c)
        × ((E.encrypt p app w).0 ≡ ok c))

module _ {G : Gorm} {E : Encryptor} where
  pub record Holds (app scope name : Str) (v : Value) (s : StorageService G E) : Type 0 where
    pub raw : Value
    pub is_stored : stored app scope name s ≡ some raw
    pub stands_for : StandsFor E app scope name raw v

  pub set_entry-Holds :
      (app scope name : Str) (v : Value) (s : StorageService G E)
      → (set_entry app scope name v s).0 ≡ ok tt
      → Holds app scope name v (set_entry app scope name v s).1
  set_entry-Holds app scope name v s h = elim (Bool-cases (is_encrypted scope name)) [
    | inl e ↦
        let (p, c, same, issued, step) = set_entry_sealed app scope name v s e h in
        record {
          raw = text c;
          is_stored =
              rw step
                (stored-assign_self app scope name (text c) (encrypting app p s) (rw step at h));
          stands_for = inr (e, p, c, s.world, same, refl, issued);
        }
    | inr e ↦
        let step = set_entry_plain app scope name v s e in
        record {
          raw = v;
          is_stored = rw step (stored-assign_self app scope name v s (rw step at h));
          stands_for = inl (e, refl);
        }
  ]

  -- An entry that is held for a value gives that value.
  pub get_entry-Holds :
      (app scope name : Str) (v : Value) (s : StorageService G E)
      → IsFaithful E
      → Holds app scope name v s
      → (get_entry app scope name s).0 ≡ ok (some v)
  get_entry-Holds app scope name v s faithful h = elim h.stands_for [
    | inl (e, same) ↦ get_plain app scope name s e (h.is_stored ∙ ap some same)
    | inr (e, p, c, w, same, raw, issued) ↦ rw same (
        get_sealed app scope name p c s e (h.is_stored ∙ ap some raw)
          (faithful.opens p app w issued s.world))
  ]

  pub transfer :
      (app scope name : Str) (v : Value) (s t : StorageService G E)
      → stored app scope name t ≡ stored app scope name s
      → Holds app scope name v s
      → Holds app scope name v t
  transfer app scope name v s t same h = record {
    raw = h.raw;
    is_stored = same ∙ h.is_stored;
    stands_for = h.stands_for;
  }
