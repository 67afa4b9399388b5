-- ===== src/Commands/Kaidel.antt =====
-- cmd/kaidel/kaidel.go: the checks of the flags, and the loop that deletes a key from the scopes.
pub mod Deleted
use kaigara.Base.{List, [], ◌∷◌, Str, split}
use kaigara.Base.Exec.{Exec, usage, pure, abort, must, ◌>>◌}
use kaigara.Storage.Interface.{Storage}

module _ (S : Storage) where
  unfoldable pub delete_in_scope : Str → Str → Str → Exec S.State (Unit {0})
  delete_in_scope app scope key = do
    must (S.read app scope)
    must (S.delete_entry app scope key)
    must (S.write app scope)

  unfoldable pub delete_in_scopes : Str → Str → List Str → Exec S.State (Unit {0})
  delete_in_scopes app key [] = pure tt
  delete_in_scopes app key (scope ∷ scopes) = do
    delete_in_scope app scope key
    delete_in_scopes app key scopes

  -- The flags -a, -s and -k.
  unfoldable pub kaidel : Str → Str → Str → Exec S.State (Unit {0})
  unfolding delete_in_scopes
  kaidel app scopes [] = abort usage
  kaidel [] scopes (k ∷ key) = abort usage
  kaidel (a ∷ app) [] (k ∷ key) = abort usage
  kaidel (a ∷ app) (c ∷ scopes) (k ∷ key) =
      delete_in_scopes (a ∷ app) (k ∷ key) (split b',' (c ∷ scopes))
