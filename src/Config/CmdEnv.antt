-- ===== src/Config/CmdEnv.antt =====
-- BuildCmdEnv of pkg/config/config.go: the variables and files of the child, from the current
-- environment and the entries of a storage.
pub mod Effects
pub mod Order
pub mod Inherited
pub mod Reloaded
pub mod Provides
pub mod Seen
pub mod Precedence
use kaigara.Base.{
  Bool, true, false, Option, none, some, List, [], ◌∷◌, ◌++◌, Str, bytes, has_prefix, to_upper,
  str_eq, if◌then◌else◌,
}
use kaigara.Base.Dict
use kaigara.Base.Dict.{Dict}
use kaigara.Base.Exec.{
  Exec, Outcome, pure, must, continue, ◌>>=◌, ◌>>◌, of_error, Fault, ok, err, panic,
}
use kaigara.Value.{Value, null, bool, text, json_number, int64, int, float64, seq, mapping}
use kaigara.Storage.Interface.{Storage}
use kaigara.Config.Kfile.{FilePart, path_part, content_part, kfile_match}

pub record File : Type 0 where
  pub path : Str
  pub content : Str

pub record Env : Type 0 where
  pub vars : List Str
  pub files : Dict File

abbrev pub no_file : File
no_file = record { path = []; content = [] }

abbrev pub kaigara_prefix : Str
kaigara_prefix = bytes "KAIGARA_"

-- The loop over currentEnv.
unfoldable pub inherited : List Str → List Str
inherited [] = []
inherited (v ∷ vs) =
    let rest = inherited vs in if has_prefix v kaigara_prefix then rest else v ∷ rest

abbrev format_bool : Bool → Str
format_bool true = bytes "true"
format_bool false = bytes "false"

-- What a text that was found empty leaves: the entry is skipped unless it is a string.
abbrev non_empty : Str → Option Str
non_empty [] = none
non_empty (c ∷ s) = some (c ∷ s)

-- `val` of an entry; `none` is `continue`.
unfoldable pub entry_text : Option Value → Option Str
entry_text (some (bool b)) = some (format_bool b)
entry_text (some (json_number s)) = non_empty s
entry_text (some (text s)) = some s
entry_text _ = none

-- env.Files[name], made if it is missing
unfoldable pub file_of : Str → Dict File → File
file_of name files = elim (Dict.lookup name files) [ none ↦ no_file | some f ↦ f ]

unfoldable pub set_part : FilePart → Str → File → File
set_part path_part val f = record f { path = val }
set_part content_part val f = record f { content = val }

-- The assignment to the part of a file, `f.Path = val` or `f.Content = val`.
unfoldable pub put_part : Str → FilePart → Str → Dict File → Dict File
unfolding file_of
put_part name part val files = Dict.insert name (set_part part val (file_of name files)) files

unfoldable pub put_entry : Str → Str → Env → Env
put_entry key val env = elim (kfile_match key) [
  | none ↦ record env { vars = env.vars ++ ((to_upper key ++ (bytes "=" ++ val)) ∷ []) }
  | some (name, part) ↦ record env { files = put_part name part val env.files }
]

-- The body of the loop over the entries of a scope.
unfoldable pub add_entry : Str → Option Value → Env → Env
unfolding put_entry
add_entry key value env = elim (entry_text value) [ none ↦ env | some val ↦ put_entry key val env ]

unfoldable pub add_entries : Dict (Option Value) → Env → Env
add_entries [] env = env
add_entries ((k, v) ∷ secrets) env = add_entries secrets (add_entry k v env)

module _ (S : Storage) where
  unfoldable pub add_scope : Str → Str → Env → Exec S.State Env
  add_scope app scope env = do
    must (S.read app scope)
    secrets ← must (S.get_entries app scope)
    pure (add_entries secrets env)

  unfoldable pub add_scopes : Str → List Str → Env → Exec S.State Env
  add_scopes app [] env = pure env
  add_scopes app (scope ∷ scopes) env = do
    env' ← add_scope app scope env
    add_scopes app scopes env'

  unfoldable pub add_apps : List Str → List Str → Env → Exec S.State Env
  add_apps [] scopes env = pure env
  add_apps (app ∷ apps) scopes env = do env' ← add_scopes app scopes env; add_apps apps scopes env'

  unfoldable pub build_cmd_env : List Str → List Str → List Str → Exec S.State Env
  unfolding add_apps
  build_cmd_env app_names current_env scopes =
      add_apps (bytes "global" ∷ app_names) scopes
        (record { vars = inherited current_env; files = [] })
