-- ===== src/Commands/SetupStore.antt =====
-- setupStore of cmd/env/env.go: enters the defaults that the store lacks.
pub mod Keeps
use kaigara.Base.{Bool, true, false, Option, none, some, [], ◌∷◌, Str, if◌then◌else◌}
use kaigara.Base.Dict
use kaigara.Base.Dict.{Dict}
use kaigara.Base.Exec.{Exec, pure, must, ◌>>=◌, ◌>>◌}
use kaigara.Value.{Value, text}
use kaigara.Storage.Interface.{Storage}

module _ (S : Storage) where
  -- The loop over the defaults of a scope; the result is isSave.
  unfoldable pub set_missing : Str → Str → Dict Str → Dict (Option Value) → Bool → Exec S.State Bool
  set_missing app scope [] secrets is_save = pure is_save
  set_missing app scope ((key, val) ∷ defaults) secrets is_save = elim (Dict.lookup key secrets) [
    | some v ↦ set_missing app scope defaults secrets is_save
    | none ↦
        (must (S.set_entry app scope key (text val)) >> set_missing app scope defaults secrets true)
  ]

  unfoldable pub setup_scope : Str → Str → Dict Str → Exec S.State (Unit {0})
  setup_scope app scope defaults = do
    must (S.read app scope)
    secrets ← must (S.get_entries app scope)
    is_save ← set_missing app scope defaults secrets false
    if is_save then must (S.write app scope) else pure tt

  unfoldable pub setup_scopes : Str → Dict (Dict Str) → Exec S.State (Unit {0})
  setup_scopes app [] = pure tt
  setup_scopes app ((scope, defaults) ∷ scopes) = do
    setup_scope app scope defaults
    setup_scopes app scopes

  unfoldable pub setup_store : Dict (Dict (Dict Str)) → Exec S.State (Unit {0})
  setup_store [] = pure tt
  setup_store ((app, scopes) ∷ apps) = do setup_scopes app scopes; setup_store apps
