-- ===== src/Storage/Sql/Total.antt =====
-- Runs of the SQL service that cannot fail.
use kaigara.Base.{
  ◌⊎◌, ◌≡◌, refl, ◌∙◌, false, ◌&&◌, Option, none, some, List, [], ◌∷◌, All, Str, arith, str_eq,
  Option-cases, Bool-cases, inl, inr,
}
use kaigara.Base.Dict
use kaigara.Base.Dict.{Dict}
use kaigara.Base.Exec.{ok, ◌>>=◌, pure, >>=_of_ok}
use kaigara.Value.{Value, text}
use kaigara.Encryptor.{Encryptor, IsFaithful}
use kaigara.Storage.Memory.{scope_of, scope_of-set_scope}
use kaigara.Storage.Plain.{Plain, Command, set, get, delete, run, replay}
use kaigara.Storage.Gorm.{Gorm}
use kaigara.Storage.Sql.{
  StorageService, sql_storage, is_encrypted, as_string, put_scope, assign, set_encrypted, set_entry,
  get_entry, delete_entry,
}
use kaigara.Storage.Sql.Entries.{set_entry_plain, encrypting}
use kaigara.Storage.Sql.Holds.{get_entry-Holds}
use kaigara.Storage.Sql.Delete.{get_missing, delete_entry-eq-ok}
use kaigara.Storage.Sql.Steps.{get_entry-Unchanged}
use kaigara.Storage.Sql.Refines.{
  Represents, entry-cases, set_entry-Represents, get_entry-Represents, delete_entry-Represents,
}

-- An encryptor that refuses no text.
abbrev pub Accepts : Encryptor → Type 0
Accepts E = (p app : Str) (w : E.World) → (c : Str) × ((E.encrypt p app w).0 ≡ ok c)

module _ {G : Gorm} {E : Encryptor} where
  abbrev Loaded : Str → Str → StorageService G E → Type 0
  Loaded app scope s = (m : Dict Value) × (scope_of app scope s.ds ≡ some m)

  -- What is loaded in the one state is loaded in the other.
  abbrev Keeps : StorageService G E → StorageService G E → Type 0
  Keeps s t = (app scope : Str) → Loaded app scope s → Loaded app scope t

  -- A command on a loaded scope, with a text where it is to be encrypted.
  abbrev pub IsReady : StorageService G E → Command → Type 0
  IsReady s (set app scope name v) =
      Loaded app scope s × ((is_encrypted scope name ≡ false) ⊎ ((p : Str) × (v ≡ text p)))
  IsReady s (get app scope name) = Loaded app scope s
  IsReady s (delete app scope name) = Unit

  put_scope-Loaded :
      (app scope app' scope' : Str) (m : Dict Value) (s : StorageService G E)
      → Loaded app' scope' s
      → Loaded app' scope' (put_scope app scope m s)
  unfolding put_scope
  put_scope-Loaded app scope app' scope' m s (n, h) =
      elim (Bool-cases (str_eq app app' && str_eq scope scope')) [
        | inl e ↦ (m, scope_of-set_scope app scope app' scope' m s.ds ∙ rw e)
        | inr e ↦ (n, scope_of-set_scope app scope app' scope' m s.ds ∙ rw e h)
      ]

  assign_of_Loaded :
      (app scope name : Str) (v : Value) (s : StorageService G E)
      → Loaded app scope s
      → (m : Dict Value) × (assign app scope name v s
          ≡ (ok tt, put_scope app scope (Dict.insert name v m) s))
  unfolding assign
  assign_of_Loaded app scope name v s (m, h) = (m, rw (h, assign))

  set_entry_succeeds :
      (app scope name : Str) (v : Value) (s : StorageService G E)
      → Accepts E
      → IsReady s (set app scope name v)
      → ((set_entry app scope name v s).0 ≡ ok tt) × Keeps s (set_entry app scope name v s).1
  unfolding set_entry set_encrypted as_string
  set_entry_succeeds app scope name v s accepts (loaded, fits) =
      elim (Bool-cases (is_encrypted scope name)) [
        | inl e ↦
            let sealed : (p : Str) × (v ≡ text p) = elim fits [
              | inl clear ↦ ground arith
              | inr t ↦ t
            ] in
            let (p, same) = sealed in
            let (c, issued) = accepts p app s.world in
            let step : set_entry app scope name v s
                ≡ assign app scope name (text c) (encrypting app p s) =
              ground arith in
            let (m, done) = assign_of_Loaded app scope name (text c) (encrypting app p s) loaded in
            (
              rw (step, done),
              λ app' scope' l.
                  rw (step, done)
                    (put_scope-Loaded app scope app' scope' (Dict.insert name (text c) m)
                      (encrypting app p s) l),
            )
        | inr e ↦
            let (m, done) = assign_of_Loaded app scope name v s loaded in
            let step = set_entry_plain app scope name v s e ∙ done in
            (
              rw step,
              λ app' scope' l.
                  rw step (put_scope-Loaded app scope app' scope' (Dict.insert name v m) s l),
            )
      ]

  get_entry_succeeds :
      (app scope name : Str) (s : StorageService G E) (m : Plain)
      → IsFaithful E
      → Represents s m
      → Loaded app scope s
      → (answer : Option Value) × ((get_entry app scope name s).0 ≡ ok answer)
  get_entry_succeeds app scope name s m faithful h (entries, loaded) =
      elim (entry-cases app scope name s m h) [
        | inl (e, is) ↦ (none, get_missing app scope name entries s loaded is)
        | inr (v, e, held) ↦ (some v, get_entry-Holds app scope name v s faithful held)
      ]

  get_entry-Keeps :
      (app scope name : Str) (s : StorageService G E) → Keeps s (get_entry app scope name s).1
  get_entry-Keeps app scope name s app' scope' l = rw ((get_entry-Unchanged app scope name s).0) l

  delete_entry-Keeps :
      (app scope name : Str) (s : StorageService G E) → Keeps s (delete_entry app scope name s).1
  unfolding delete_entry
  delete_entry-Keeps app scope name s app' scope' l =
      elim (Option-cases (scope_of app scope s.ds)) [
        | inl e ↦ rw (delete_entry, e) l
        | inr (m, e) ↦
            rw (delete_entry, e) (put_scope-Loaded app scope app' scope' (Dict.delete name m) s l)
      ]

  IsReady-Keeps :
      (s t : StorageService G E) (commands : List Command)
      → Keeps s t
      → All (IsReady s) commands
      → All (IsReady t) commands
  IsReady-Keeps s t [] keeps ready = tt
  IsReady-Keeps s t (set app scope name v ∷ commands) keeps ((l, fits), ready) =
      ((keeps app scope l, fits), IsReady-Keeps s t commands keeps ready)
  IsReady-Keeps s t (get app scope name ∷ commands) keeps (l, ready) =
      (keeps app scope l, IsReady-Keeps s t commands keeps ready)
  IsReady-Keeps s t (delete app scope name ∷ commands) keeps (_, ready) =
      (tt, IsReady-Keeps s t commands keeps ready)

  module _ (accepts : Accepts E) (faithful : IsFaithful E) where
    -- On loaded scopes, with texts for what is to be encrypted, every run of SetEntry, GetEntry and
    -- DeleteEntry succeeds, and answers as a map of plain values does, if the encryptor refuses no text
    -- and is faithful.
    pub sql_run_total :
        (commands : List Command) (s : StorageService G E) (m : Plain)
        → Represents s m
        → All (IsReady s) commands
        → (run (sql_storage G E) commands s).0 ≡ ok (replay commands m).0
    unfolding run replay
    sql_run_total [] s m h ready = refl
    sql_run_total (set app scope name v ∷ commands) s m h (now, later) =
        let (done, keeps) = set_entry_succeeds app scope name v s accepts now in
        let t = (set_entry app scope name v s).1 in
        rw (>>=_of_ok (set_entry app scope name v) (λ _. run (sql_storage G E) commands) s done) (
          sql_run_total commands t _ (set_entry-Represents app scope name v s m h done)
            (IsReady-Keeps s t commands keeps later))
    sql_run_total (get app scope name ∷ commands) s m h (now, later) =
        let (answer, done) = get_entry_succeeds app scope name s m faithful h now in
        let (same, kept) = get_entry-Represents app scope name answer s m faithful h done in
        let t = (get_entry app scope name s).1 in
        let rest =
          sql_run_total commands t m kept
            (IsReady-Keeps s t commands (get_entry-Keeps app scope name s) later) in
        rw
          (
            >>=_of_ok (get_entry app scope name)
                (λ a. run (sql_storage G E) commands >>= (λ l. pure (a ∷ l))) s done,
            >>=_of_ok (run (sql_storage G E) commands) (λ l. pure (answer ∷ l)) t rest,
            same,
          )
          refl
    sql_run_total (delete app scope name ∷ commands) s m h (now, later) =
        let t = (delete_entry app scope name s).1 in
        rw
          (>>=_of_ok (delete_entry app scope name) (λ _. run (sql_storage G E) commands) s
            (delete_entry-eq-ok app scope name s))
          (sql_run_total commands t _ (delete_entry-Represents app scope name s m h)
            (IsReady-Keeps s t commands (delete_entry-Keeps app scope name s) later))
