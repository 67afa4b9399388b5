-- ===== src/Config/CmdEnv/Precedence.antt =====
-- Which value of a variable the child of a run of BuildCmdEnv sees.
use kaigara.Base.{
  ◌≡◌, refl, sym, ap, ◌∙◌, Option, none, List, [], ◌∷◌, ◌++◌, Str, bytes, if◌then◌else◌, arith, inl,
  inr, has_prefix,
}
use kaigara.Base.Dict.{Dict}
use kaigara.Base.Exec.{Exec, Outcome-cases, ok, pure, must, ◌>>=◌, ◌>>◌, >>=-eq-ok}
use kaigara.Value.{Value}
use kaigara.Storage.Interface.{Storage}
use kaigara.Config.CmdEnv.{
  Env, inherited, kaigara_prefix, add_entries, add_scope, add_scopes, add_apps, build_cmd_env,
}
use kaigara.Config.CmdEnv.Seen.{
  or_else, or_else_assoc, seen, scope_says, scopes_say, scopes_say-append, seen-add_entries,
  seen-inherited,
}

module _ (S : Storage) where
  -- The entries of the scopes of an application, and of several, in the order in which they are read.
  unfoldable pub read_scopes : Str → List Str → Exec S.State (List (Dict (Option Value)))
  read_scopes app [] = pure []
  read_scopes app (scope ∷ scopes) = do
    must (S.read app scope)
    secrets ← must (S.get_entries app scope)
    more ← read_scopes app scopes
    pure (secrets ∷ more)

  unfoldable pub read_apps : List Str → List Str → Exec S.State (List (Dict (Option Value)))
  read_apps [] scopes = pure []
  read_apps (app ∷ apps) scopes = do
    first ← read_scopes app scopes
    more ← read_apps apps scopes
    pure (first ++ more)

  -- An environment that sees each variable as these scopes say, and else as before.
  abbrev Sees : List (Dict (Option Value)) → Env → Env → Type 0
  Sees all env after =
      (name : Str) → seen name after.vars ≡ or_else (scopes_say name all) (seen name env.vars)

  add_scope-eq-ok :
      (app scope : Str) (env after : Env) (s : S.State)
      → (add_scope S app scope env s).0 ≡ ok after
      → let t = (S.read app scope s).1 in
        (secrets : Dict (Option Value)) × ((S.read app scope s).0 ≡ ok tt)
        × ((S.get_entries app scope t).0 ≡ ok secrets)
        × (after ≡ add_entries secrets env)
        × ((add_scope S app scope env s).1 ≡ (S.get_entries app scope t).1)
  unfolding add_scope
  add_scope-eq-ok app scope env after s h = elim (Outcome-cases (S.read app scope s).0) [
    | inr e ↦ ground arith
    | inl (_, e) ↦ elim (Outcome-cases (S.get_entries app scope (S.read app scope s).1).0) [
      | inr f ↦ ground arith
      | inl (secrets, f) ↦ (secrets, ground arith, f, ground arith, ground arith)
    ]
  ]

  add_scopes-Sees :
      (app : Str) (scopes : List Str) (env after : Env) (s : S.State)
      → (add_scopes S app scopes env s).0 ≡ ok after
      → (all : List (Dict (Option Value))) × ((read_scopes app scopes s).0 ≡ ok all)
        × ((read_scopes app scopes s).1 ≡ (add_scopes S app scopes env s).1)
        × Sees all env after
  unfolding add_scopes read_scopes scopes_say
  add_scopes-Sees app [] env after s h =
      let same : env ≡ after = ground arith in
      ([], refl, refl, λ name. ap (λ (e : Env). seen name e.vars) (sym same))
  add_scopes-Sees app (scope ∷ scopes) env after s h =
      let (env', done, rest) =
        >>=-eq-ok (add_scope S app scope env) (add_scopes S app scopes) s h in
      let (secrets, read, got, is, at_get) = add_scope-eq-ok app scope env env' s done in
      let u = (S.get_entries app scope (S.read app scope s).1).1 in
      let (more, all_read, same, sees) =
        add_scopes-Sees app scopes env' after u (rw at_get at rest) in
      (
        secrets ∷ more,
        ground arith,
        ground arith,
        λ name.
            sees name
            ∙ ap (or_else (scopes_say name more))
                (ap (λ (e : Env). seen name e.vars) is ∙ seen-add_entries name secrets env)
            ∙ sym (
                or_else_assoc (scopes_say name more) (scope_says name secrets)
                  (seen name env.vars)),
      )

  add_apps-Sees :
      (apps scopes : List Str) (env after : Env) (s : S.State)
      → (add_apps S apps scopes env s).0 ≡ ok after
      → (all : List (Dict (Option Value))) × ((read_apps apps scopes s).0 ≡ ok all)
        × Sees all env after
  unfolding add_apps read_apps scopes_say
  add_apps-Sees [] scopes env after s h =
      let same : env ≡ after = ground arith in
      ([], refl, λ name. ap (λ (e : Env). seen name e.vars) (sym same))
  add_apps-Sees (app ∷ apps) scopes env after s h =
      let (env', done, rest) =
        >>=-eq-ok (add_scopes S app scopes env) (add_apps S apps scopes) s h in
      let (first, first_read, same, sees) = add_scopes-Sees app scopes env env' s done in
      let (more, more_read, sees') =
        add_apps-Sees apps scopes env' after (read_scopes app scopes s).1 (rw (← same) at rest) in
      (
        first ++ more,
        ground arith,
        λ name.
            sees' name
            ∙ ap (or_else (scopes_say name more)) (sees name)
            ∙ sym
                (or_else_assoc (scopes_say name more) (scopes_say name first) (seen name env.vars))
            ∙ ap (λ x. or_else x (seen name env.vars)) (sym (scopes_say-append name first more)),
      )

  -- The child sees a variable as the last scope that has it says, in the order in which they are read,
  -- those of global first; where no scope does, as the current environment has it, if its name does not
  -- begin with KAIGARA_, and else not at all.
  pub build_cmd_env-seen :
      (app_names current scopes : List Str) (env : Env) (s : S.State)
      → (build_cmd_env S app_names current scopes s).0 ≡ ok env
      → (all : List (Dict (Option Value))) × ((read_apps (bytes "global" ∷ app_names) scopes s).0
          ≡ ok all)
        × ((name : Str)
            → seen name env.vars
              ≡ or_else
                  (scopes_say name all)
                  (if has_prefix name kaigara_prefix then none else seen name current))
  unfolding build_cmd_env
  build_cmd_env-seen app_names current scopes env s h =
      let begin : Env = record { vars = inherited current; files = [] } in
      let (all, read, sees) = add_apps-Sees (bytes "global" ∷ app_names) scopes begin env s h in
      (
        all,
        read,
        λ name. sees name ∙ ap (or_else (scopes_say name all)) (seen-inherited name current),
      )
