-- ===== src/Config/CmdEnv/Inherited.antt =====
-- What the child inherits from the current environment, and what it gets from the storage.
use kaigara.Base.{
  ◌≡◌, refl, sym, ap, ◌∙◌, false, Option, List, [], ◌∷◌, ◌++◌, Str, bytes, to_upper, has_prefix,
  arith, append_assoc, append-nil, All, if◌then◌else◌, inl, inr, Option-cases, Bool-cases,
}
use kaigara.Base.Dict.{Dict}
use kaigara.Base.Exec.{Exec, Outcome, Outcome-cases, ok, err, panic, map_ok, continue}
use kaigara.Value.{Value}
use kaigara.Storage.Interface.{Storage}
use kaigara.Config.Kfile.{kfile_match}
use kaigara.Config.CmdEnv.{
  Env, kaigara_prefix, inherited, entry_text, put_entry, add_entry, add_entries, add_scope,
  add_scopes, add_apps, build_cmd_env,
}

-- An environment with more variables in front.
abbrev pub prepend : List Str → Env → Env
prepend vs env = record env { vars = vs ++ env.vars }

put_entry-prepend :
    (vs : List Str) (key val : Str) (env : Env)
    → put_entry key val (prepend vs env) ≡ prepend vs (put_entry key val env)
unfolding put_entry
put_entry-prepend vs key val env = elim (Option-cases (kfile_match key)) [
  | inl e ↦
      rw (e, put_entry)
        (ap (λ (x : List Str). record { vars = x; files = env.files })
          (append_assoc vs env.vars ((to_upper key ++ (bytes "=" ++ val)) ∷ [])))
  | inr (m, e) ↦ rw (e, put_entry)
]

add_entry-prepend :
    (vs : List Str) (key : Str) (value : Option Value) (env : Env)
    → add_entry key value (prepend vs env) ≡ prepend vs (add_entry key value env)
unfolding add_entry
add_entry-prepend vs key value env = elim (Option-cases (entry_text value)) [
  | inl e ↦ rw (e, add_entry)
  | inr (val, e) ↦ rw (e, add_entry) (put_entry-prepend vs key val env)
]

add_entries-prepend :
    (vs : List Str) (es : Dict (Option Value)) (env : Env)
    → add_entries es (prepend vs env) ≡ prepend vs (add_entries es env)
unfolding add_entries
add_entries-prepend vs [] env = refl
add_entries-prepend vs ((k, v) ∷ es) env =
    ap (add_entries es) (add_entry-prepend vs k v env)
    ∙ add_entries-prepend vs es (add_entry k v env)

module _ (S : Storage) where
  -- A run on a prepended environment is the same run with the variables in front.
  abbrev pub fronted : List Str → Outcome Env × S.State → Outcome Env × S.State
  fronted vs (r, s) = (map_ok (prepend vs) r, s)

  abbrev run : (Env → Exec S.State Env) → Outcome Env × S.State → Outcome Env × S.State
  run f (r, s) = continue r f s

  continue-prepend :
      (vs : List Str) (r : Outcome Env) (f : Env → Exec S.State Env) (s : S.State)
      → ((e : Env) (t : S.State) → f (prepend vs e) t ≡ fronted vs (f e t))
      → continue (map_ok (prepend vs) r) f s ≡ fronted vs (continue r f s)
  continue-prepend vs (ok e) f s h = h e s
  continue-prepend vs (err e) f s h = refl
  continue-prepend vs (panic p) f s h = refl

  add_scope-prepend :
      (vs : List Str) (app scope : Str) (env : Env) (s : S.State)
      → add_scope S app scope (prepend vs env) s ≡ fronted vs (add_scope S app scope env s)
  unfolding add_scope
  add_scope-prepend vs app scope env s = elim (Outcome-cases (S.read app scope s).0) [
    | inl (_, e) ↦
        let t = (S.read app scope s).1 in
        elim (Outcome-cases (S.get_entries app scope t).0) [
          | inl (secrets, e') ↦ ground (arith, add_entries-prepend vs secrets env)
          | inr e' ↦ ground arith
        ]
    | inr e ↦ ground arith
  ]

  add_scopes-prepend :
      (vs : List Str) (app : Str) (scopes : List Str) (env : Env) (s : S.State)
      → add_scopes S app scopes (prepend vs env) s ≡ fronted vs (add_scopes S app scopes env s)
  unfolding add_scopes
  add_scopes-prepend vs app [] env s = refl
  add_scopes-prepend vs app (scope ∷ scopes) env s =
      ap (run (add_scopes S app scopes)) (add_scope-prepend vs app scope env s)
      ∙ continue-prepend vs (add_scope S app scope env s).0 (add_scopes S app scopes) _
          (λ e t. add_scopes-prepend vs app scopes e t)

  add_apps-prepend :
      (vs apps scopes : List Str) (env : Env) (s : S.State)
      → add_apps S apps scopes (prepend vs env) s ≡ fronted vs (add_apps S apps scopes env s)
  unfolding add_apps
  add_apps-prepend vs [] scopes env s = refl
  add_apps-prepend vs (app ∷ apps) scopes env s =
      ap (run (add_apps S apps scopes)) (add_scopes-prepend vs app scopes env s)
      ∙ continue-prepend vs (add_scopes S app scopes env s).0 (add_apps S apps scopes) _
          (λ e t. add_apps-prepend vs apps scopes e t)

  -- The child's environment is what it inherits, followed by what it would get without a current
  -- environment: the current environment changes no file, no variable of the storage, and not
  -- whether the run succeeds.
  pub build_cmd_env-inherited :
      (app_names current scopes : List Str) (s : S.State)
      → build_cmd_env S app_names current scopes s
        ≡ fronted (inherited current) (build_cmd_env S app_names [] scopes s)
  unfolding build_cmd_env inherited
  build_cmd_env-inherited app_names current scopes s =
      ap (λ vs. add_apps S (bytes "global" ∷ app_names) scopes (record { vars = vs; files = [] }) s)
        (sym (append-nil (inherited current)))
      ∙ add_apps-prepend (inherited current) (bytes "global" ∷ app_names) scopes _ s

-- Nothing that is inherited begins with KAIGARA_.
pub inherited-All :
    (current : List Str) → All (λ v. has_prefix v kaigara_prefix ≡ false) (inherited current)
unfolding inherited
inherited-All [] = tt
inherited-All (v ∷ vs) = elim (Bool-cases (has_prefix v kaigara_prefix)) [
  | inl e ↦ rw e (inherited-All vs)
  | inr e ↦ rw e (e, inherited-All vs)
]

-- Each variable of the current environment is inherited at its place, exactly when it does not begin
-- with KAIGARA_.
pub inherited-append :
    (before after : List Str) (v : Str)
    → inherited (before ++ (v ∷ after))
      ≡ inherited before
        ++ (if has_prefix v kaigara_prefix then inherited after else v ∷ inherited after)
unfolding inherited
inherited-append [] after v = refl
inherited-append (u ∷ before) after v = ground (arith, inherited-append before after v)
