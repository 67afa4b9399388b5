-- ===== src/Storage/Interface.antt =====
-- types/storage.go: the Storage interface. `State` is what the storage keeps in memory and what it
-- reaches, the database or Vault.
use kaigara.Base.{Option, List, Str}
use kaigara.Base.Dict.{Dict}
use kaigara.Base.Exec.{Exec}
use kaigara.Base.Int64.{ℤ}
use kaigara.Value.{Value}

pub record Storage : Type 1 where
  pub State : Type 0
  pub read : Str → Str → Exec State (Unit {0})
  pub write : Str → Str → Exec State (Unit {0})
  pub set_entry : Str → Str → Str → Value → Exec State (Unit {0})
  pub set_entries : Str → Str → Dict Value → Exec State (Unit {0})
  -- `none` is the nil that stands for a missing entry.
  pub get_entry : Str → Str → Str → Exec State (Option Value)
  pub get_entries : Str → Str → Exec State (Dict (Option Value))
  pub list_entries : Str → Str → Exec State (List Str)
  pub delete_entry : Str → Str → Str → Exec State (Unit {0})
  pub list_app_names : Exec State (List Str)
  pub get_current_version : Str → Str → Exec State ℤ
  pub get_latest_version : Str → Str → Exec State ℤ
