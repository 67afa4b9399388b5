-- ===== src/Storage/Gorm.antt =====
-- gorm, as pkg/storage/sql calls it: a table of rows behind queries that may fail.
use kaigara.Base.{
  ◌≡◌, refl, ◌⊎◌, inl, inr, Option, none, some, List, Str, ◌&&◌, str_eq, if◌then◌else◌,
}
use kaigara.Base.Exec.{Outcome}
use kaigara.Base.Int64.{ℤ, int_eq}
use kaigara.Value.{Json}

-- `Data` of pkg/storage/sql/sql.go, less the columns of gorm.Model. The JSON column stands for the
-- document that its bytes parse to, `none` if they parse to none.
pub record Data : Type 0 where
  pub app_name : Str
  pub scope : Str
  pub value : Option Json
  pub version : ℤ

-- The result of `First`: a row, gorm.ErrRecordNotFound, or another error.
pub data Found : Type 0 where
  row : Data → Found
  not_found : Found
  failed : Str → Found

pub Found-cases :
    (f : Found) → ((m : Str) × (f ≡ failed m)) ⊎ ((f ≡ not_found) ⊎ ((d : Data) × (f ≡ row d)))
Found-cases (failed m) = inl (m, refl)
Found-cases not_found = inr (inl refl)
Found-cases (row d) = inr (inr (d, refl))

pub record Gorm : Type 1 where
  pub Db : Type 0
  -- First, with the condition app_name = ? AND scope = ?
  pub first : Str → Str → Db → Found
  -- Create: the error, if any
  pub create : Data → Db → Option Str × Db
  -- Updates of the row that `First` found, with the fields of a Data that are not zero
  pub updates : Data → Data → Db → Option Str × Db
  -- Distinct().Pluck("app_name", …)
  pub app_names : Db → Outcome (List Str)

abbrev or_old : Option Json → Option Json → Option Json
or_old none old = old
or_old (some v) old = some v

-- A row after Updates: the fields that are zero in the argument keep their value.
abbrev pub updated : Data → Data → Data
updated old d = record d {
  value = or_old d.value old.value;
  version = if int_eq d.version (ℤ.pos 0) then old.version else d.version;
}

-- What the service relies on: a write that reports no error shows in the queries of its own
-- application and scope, and only there; one that reports an error shows in none.
pub record IsTable (G : Gorm) : Type 0 where
  pub first-create :
      (d : Data) (db : G.Db)
      → G.first d.app_name d.scope db ≡ not_found
      → (G.create d db).0 ≡ none
      → (app scope : Str)
      → G.first app scope (G.create d db).1
        ≡ (if str_eq d.app_name app && str_eq d.scope scope then row d else G.first app scope db)
  pub first-updates :
      (old d : Data) (db : G.Db)
      → G.first d.app_name d.scope db ≡ row old
      → (G.updates old d db).0 ≡ none
      → (app scope : Str)
      → G.first app scope (G.updates old d db).1 ≡ (
          if str_eq d.app_name app && str_eq d.scope scope
          then row (updated old d)
          else G.first app scope db)
  pub create_failed :
      (d : Data) (db : G.Db) (m : Str)
      → (G.create d db).0 ≡ some m
      → (app scope : Str) → G.first app scope (G.create d db).1 ≡ G.first app scope db
  pub updates_failed :
      (old d : Data) (db : G.Db) (m : Str)
      → (G.updates old d db).0 ≡ some m
      → (app scope : Str) → G.first app scope (G.updates old d db).1 ≡ G.first app scope db
