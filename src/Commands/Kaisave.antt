-- ===== src/Commands/Kaisave.antt =====
-- cmd/kaisave/kaisave.go: the loops that save the secrets of a file.
pub mod Sql
pub mod Published
pub mod Versioned
pub mod Kept
pub mod SaveAll
pub mod ToChild
use kaigara.Base.{List, [], ◌∷◌, Str}
use kaigara.Base.Dict.{Dict}
use kaigara.Base.Exec.{Exec, Outcome, ok, err, panic, of_error, pure, must, continue, ◌>>◌}
use kaigara.Value.{Value}
use kaigara.Storage.Interface.{Storage}

-- App and SecretsFile: applications, their scopes, and the entries of these.
abbrev pub SecretsFile : Type 0
SecretsFile = Dict (Dict (Dict Value))

module _ (S : Storage) where
  unfoldable pub save_entries : Str → Str → Dict Value → Exec S.State (Unit {0})
  save_entries app scope [] = pure tt
  save_entries app scope ((k, v) ∷ entries) = do
    must (S.set_entry app scope k v)
    save_entries app scope entries

  unfoldable pub save_scope : Str → Str → Dict Value → Exec S.State (Unit {0})
  save_scope app scope entries = do
    must (S.read app scope)
    save_entries app scope entries
    must (S.write app scope)

  unfoldable pub save_scopes : Str → Dict (Dict Value) → Exec S.State (Unit {0})
  save_scopes app [] = pure tt
  save_scopes app ((scope, entries) ∷ scopes) = do
    save_scope app scope entries
    save_scopes app scopes

  unfoldable pub save_all : SecretsFile → Exec S.State (Unit {0})
  save_all [] = pure tt
  save_all ((app, scopes) ∷ apps) = do save_scopes app scopes; save_all apps
