-- ===== src/Storage/Plain.antt =====
-- What a storage promises of the entries that it keeps in memory: a map from applications, scopes and
-- names to values, in which nothing is encrypted and no order is seen.
pub mod Raw
use kaigara.Base.{
  true, str_eq_iff, str_eq_refl, arith, ◌≡◌, refl, sym, ◌∙◌, ap, ◌&&◌, Option, none, some, List, [],
  ◌∷◌, Str, str_eq, if◌then◌else◌,
}
use kaigara.Base.Exec.{
  Exec, Outcome, ok, err, panic, pure, continue, ◌>>=◌, ◌>>◌, >>=-eq-ok, >>=_of_ok,
}
use kaigara.Value.{Value}
use kaigara.Storage.Interface.{Storage}

abbrev pub Plain : Type 0
Plain = Str → Str → Str → Option Value

abbrev pub update : Str → Str → Str → Option Value → Plain → Plain
update app scope name v m app' scope' name' =
    if str_eq app app' && (str_eq scope scope' && str_eq name name') then v else m app' scope' name'

pub update_self :
    (app scope name : Str) (v : Option Value) (m : Plain)
    → update app scope name v m app scope name ≡ v
update_self app scope name v m = rw (str_eq_refl app, str_eq_refl scope, str_eq_refl name) refl

pub same_names :
    (app scope name app' scope' name' : Str)
    → str_eq app app' && (str_eq scope scope' && str_eq name name') ≡ true
    → (app ≡ app') × (scope ≡ scope') × (name ≡ name')
same_names app scope name app' scope' name' h =
    ground (arith, str_eq_iff app app', str_eq_iff scope scope', str_eq_iff name name')

-- The operations on single entries.
pub data Command : Type 0 where
  set : Str → Str → Str → Value → Command
  get : Str → Str → Str → Command
  delete : Str → Str → Str → Command

-- The answers to the gets, in order, and the map at the end.
unfoldable pub replay : List Command → Plain → List (Option Value) × Plain
replay [] m = ([], m)
replay (set app scope name v ∷ commands) m = replay commands (update app scope name (some v) m)
replay (get app scope name ∷ commands) m =
    let (answers, m') = replay commands m in (m app scope name ∷ answers, m')
replay (delete app scope name ∷ commands) m = replay commands (update app scope name none m)

module _ (S : Storage) where
  -- The same commands on a storage, up to the first error or panic.
  unfoldable pub run : List Command → Exec S.State (List (Option Value))
  run [] = pure []
  run (set app scope name v ∷ commands) = do S.set_entry app scope name v; run commands
  run (get app scope name ∷ commands) = do
    answer ← S.get_entry app scope name
    answers ← run commands
    pure (answer ∷ answers)
  run (delete app scope name ∷ commands) = do S.delete_entry app scope name; run commands

  -- Each operation that succeeds does to the entries what the map promises.
  pub record Implements (Represents : S.State → Plain → Type 0) : Type 0 where
    pub sets :
        (app scope name : Str) (v : Value) (s : S.State) (m : Plain)
        → Represents s m
        → (S.set_entry app scope name v s).0 ≡ ok tt
        → Represents (S.set_entry app scope name v s).1 (update app scope name (some v) m)
    pub gets :
        (app scope name : Str) (answer : Option Value) (s : S.State) (m : Plain)
        → Represents s m
        → (S.get_entry app scope name s).0 ≡ ok answer
        → (answer ≡ m app scope name) × Represents (S.get_entry app scope name s).1 m
    pub deletes :
        (app scope name : Str) (s : S.State) (m : Plain)
        → Represents s m
        → (S.delete_entry app scope name s).0 ≡ ok tt
        → Represents (S.delete_entry app scope name s).1 (update app scope name none m)

  module _ (Represents : S.State → Plain → Type 0) (implements : Implements Represents) where
    -- A run that succeeds answers as the map does.
    pub run_refines :
        (commands : List Command) (answers : List (Option Value)) (s : S.State) (m : Plain)
        → Represents s m
        → (run commands s).0 ≡ ok answers
        → (answers ≡ (replay commands m).0) × Represents (run commands s).1 (replay commands m).1
    unfolding run replay
    run_refines [] answers s m h done = ground arith
    run_refines (set app scope name v ∷ commands) answers s m h done =
        let (_, first, rest) =
          >>=-eq-ok (S.set_entry app scope name v) (λ _. run commands) s done in
        rw (>>=_of_ok (S.set_entry app scope name v) (λ _. run commands) s first)
          (run_refines commands answers _ _ (implements.sets app scope name v s m h first) rest)
    run_refines (get app scope name ∷ commands) answers s m h done =
        let (answer, first, after) = >>=-eq-ok (S.get_entry app scope name) _ s done in
        let (same, kept) = implements.gets app scope name answer s m h first in
        let t = (S.get_entry app scope name s).1 in
        let (more, rest, last) = >>=-eq-ok (run commands) _ t after in
        let (answered, represents) = run_refines commands more t m kept rest in
        let given : answer ∷ more ≡ answers = ground arith in
        rw
          (
            >>=_of_ok (S.get_entry app scope name) (λ a. run commands >>= (λ l. pure (a ∷ l))) s
                first,
            >>=_of_ok (run commands) (λ l. pure (answer ∷ l)) t rest,
          )
          (cc (given, same, answered), represents)
    run_refines (delete app scope name ∷ commands) answers s m h done =
        let (_, first, rest) =
          >>=-eq-ok (S.delete_entry app scope name) (λ _. run commands) s done in
        rw (>>=_of_ok (S.delete_entry app scope name) (λ _. run commands) s first)
          (run_refines commands answers _ _ (implements.deletes app scope name s m h first) rest)
