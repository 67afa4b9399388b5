-- ===== src/Config/CmdEnv/Provides.antt =====
-- The variables that the entries of a scope make.
use kaigara.Base.{
  ◌≡◌, sym, Option, none, some, [], ◌∷◌, ◌++◌, Str, bytes, to_upper, str_eq, str_eq_iff, arith,
  Among, Among-append_left, Among-append_last, Bool-cases, Option-cases, inl, inr, subst,
}
use kaigara.Base.Dict
use kaigara.Base.Dict.{Dict}
use kaigara.Value.{Value, text}
use kaigara.Config.Kfile.{kfile_match}
use kaigara.Config.CmdEnv.{Env, entry_text, put_entry, add_entry, add_entries}

-- The variable of an entry.
abbrev pub variable : Str → Str → Str
variable key val = to_upper key ++ (bytes "=" ++ val)

add_entry-keeps :
    (v key : Str) (value : Option Value) (env : Env)
    → Among v env.vars
    → Among v (add_entry key value env).vars
unfolding add_entry put_entry
add_entry-keeps v key value env h = elim (Option-cases (entry_text value)) [
  | inl e ↦ rw (e, add_entry) h
  | inr (val, e) ↦ elim (Option-cases (kfile_match key)) [
    | inl f ↦
        rw (e, f, add_entry, put_entry) (Among-append_left v env.vars (variable key val ∷ []) h)
    | inr (m, f) ↦ rw (e, f, add_entry, put_entry) h
  ]
]

pub add_entries-keeps :
    (v : Str) (es : Dict (Option Value)) (env : Env)
    → Among v env.vars
    → Among v (add_entries es env).vars
unfolding add_entries
add_entries-keeps v [] env h = h
add_entries-keeps v ((k, value) ∷ es) env h =
    add_entries-keeps v es (add_entry k value env) (add_entry-keeps v k value env h)

add_entry-provides :
    (key val : Str) (env : Env)
    → kfile_match key ≡ none
    → Among (variable key val) (add_entry key (some (text val)) env).vars
unfolding add_entry put_entry entry_text
add_entry-provides key val env no_file =
    rw (no_file, put_entry) (Among-append_last (variable key val) env.vars)

-- A text under a key that names no file becomes a variable.
pub add_entries-provides :
    (key val : Str) (es : Dict (Option Value)) (env : Env)
    → kfile_match key ≡ none
    → Dict.lookup key es ≡ some (some (text val))
    → Among (variable key val) (add_entries es env).vars
unfolding add_entries Dict.lookup
add_entries-provides key val [] env no_file h = ground arith
add_entries-provides key val ((k, value) ∷ es) env no_file h = elim (Bool-cases (str_eq k key)) [
  | inl e ↦
      let is : k ≡ key = (str_eq_iff k key).0 e in
      let found : value ≡ some (text val) = ground arith in
      add_entries-keeps (variable key val) es (add_entry k value env) (
        subst (λ x. Among (variable key val) (add_entry k x env).vars) (sym found)
          (subst (λ x. Among (variable key val) (add_entry x (some (text val)) env).vars) (sym is)
            (add_entry-provides key val env no_file)))
  | inr e ↦ add_entries-provides key val es (add_entry k value env) no_file (ground arith)
]
