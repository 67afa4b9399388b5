-- ===== src/Tests/Settings.antt =====
-- The theorems on the environment of the child, applied.
use mathlib.Core.List.{Permᴰ}
use kaigara.Base.{◌≡◌, ◌↔◌, refl, Option, some, List, [], ◌∷◌, Str, bytes, to_upper, arith}
use kaigara.Value.{Value, text}
use kaigara.Config.Kfile.{path_part, one_line, kfile_match, file_key}
use kaigara.Config.Kfile.Laws.{kfile_match_iff}
use kaigara.Config.CmdEnv.{Env, inherited, add_entries, build_cmd_env}
use kaigara.Config.CmdEnv.Effects.{SameEnv}
use kaigara.Config.CmdEnv.Order.{add_entries-Perm}
use kaigara.Config.CmdEnv.Inherited.{fronted, build_cmd_env-inherited}
use kaigara.Tests.{empty_service, storage}

abbrev current : List Str
current = bytes "HOME=/root" ∷ (bytes "KAIGARA_SCOPES=secret" ∷ [])

abbrev user : Str × Option Value
user = (bytes "db_user", some (text (bytes "root")))

abbrev certificate : Str × Option Value
certificate = (bytes "kfile_tls_path", some (text (bytes "/etc/tls.pem")))

abbrev no_env : Env
no_env = record { vars = []; files = [] }

kfile_match_iff_example :
    (kfile_match (bytes "kfile_tls_path") ≡ some (bytes "TLS", path_part))
    ↔ (to_upper (bytes "kfile_tls_path") ≡ file_key (bytes "TLS") path_part)
unfolding one_line
kfile_match_iff_example = kfile_match_iff (bytes "kfile_tls_path") (bytes "TLS") path_part refl

add_entries-Perm_example :
    SameEnv
      (add_entries (user ∷ (certificate ∷ [])) no_env)
      (add_entries (certificate ∷ (user ∷ [])) no_env)
unfolding to_upper
add_entries-Perm_example =
    add_entries-Perm no_env (Permᴰ.swap refl refl) (((λ p. ground arith), tt), (tt, tt))

build_cmd_env-inherited_example :
    build_cmd_env storage (bytes "peatio" ∷ []) current (bytes "secret" ∷ []) empty_service
    ≡ fronted storage
        (inherited current)
        (build_cmd_env storage (bytes "peatio" ∷ []) [] (bytes "secret" ∷ []) empty_service)
build_cmd_env-inherited_example =
    build_cmd_env-inherited storage (bytes "peatio" ∷ []) current (bytes "secret" ∷ [])
      empty_service
