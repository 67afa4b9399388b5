-- ===== src/Runner/Run/Exit.antt =====
-- The exit status of the program.
use kaigara.Base.{
  ℕ, ◌≡◌, sym, ap, ◌∙◌, Option, none, some, List, [], ◌∷◌, ◌++◌, Str, arith, subst, inl, inr, true,
}
use kaigara.Base.Exec.{Exec, ok, pure, focus, >>=-eq-ok, Outcome-cases, ◌>>◌}
use kaigara.Base.Int64.{ℤ}
use kaigara.Storage.Interface.{Storage}
use kaigara.Config.CmdEnv.{Env, build_cmd_env}
use kaigara.Runner.ExitCode.{
  WaitError, exit_code, Ending, Reports, shell_status, exit_code-eq-shell_status,
}
use kaigara.Runner.Supervise.{exited, Supervisor, supervise_child, fresh}
use kaigara.Runner.Supervise.Delivery.{supervise_child_exit}
use kaigara.Runner.Watch.{watched_apps}
use kaigara.Runner.Launch.{FileSystem, Launcher, launch, parse_app_names, write_files}
use kaigara.Runner.Run.{
  Happening, ended, Watcher, Machine, parse_scopes, selected, run_child, run_started, kaigara_run,
}
use kaigara.Runner.Run.Selected.{NoEnd, select, select-append}

module _ (S : Storage) (sprint : ℤ → Str) (apps scopes : List Str) where
  run_child-exit :
      (before after : List (ℕ × Happening S)) (now : ℕ) (e : WaitError)
      (reported : Option WaitError) (s : Supervisor) (w : Watcher S)
      → NoEnd before
      → (run_child S sprint apps scopes (before ++ ((now, ended e) ∷ after)) w).0 ≡ ok (reported, s)
      → reported ≡ some e
  unfolding run_child selected
  run_child-exit before after now e reported s w running h =
      let more = before ++ ((now, ended e) ∷ after) in
      let (all, chosen, supervised) =
        >>=-eq-ok (select S sprint apps scopes more) (λ es. pure (supervise_child es fresh)) w h in
      let (xs, ys, u, split, alive, last) =
        select-append S sprint apps scopes before ((now, ended e) ∷ after) all w running chosen in
      let whole : all ≡ xs ++ ((now, exited e) ∷ []) = split ∙ ap (λ t. xs ++ t) (ground arith) in
      let same : supervise_child all fresh ≡ (reported, s) = ground arith in
      sym (ap (λ r. r.0) (ap (λ t. supervise_child t fresh) (sym whole) ∙ same))
      ∙ (supervise_child_exit xs [] now e alive).0

module _ (S : Storage) (F : FileSystem) (sprint : ℤ → Str) (L : Launcher) where
  run_started-exit_code :
      (apps scopes : List Str) (before after : List (ℕ × Happening S)) (now : ℕ) (e : WaitError)
      (code : Option ℕ) (m : Machine S F)
      → NoEnd before
      → (run_started S F sprint L (ok tt) apps scopes (before ++ ((now, ended e) ∷ after)) m).0
        ≡ ok code
      → code ≡ some (exit_code e)
  unfolding run_started
  run_started-exit_code apps scopes before after now e code m running h =
      let w : Watcher S = record { watching = true; pending = none; store = m.store } in
      elim (Outcome-cases
        (run_child S sprint apps scopes (before ++ ((now, ended e) ∷ after)) w).0) [
          | inl ((reported, s), done) ↦
              let is =
                run_child-exit S sprint apps scopes before after now e reported s w running done in
              ground arith
          | inr failed ↦ ground arith
        ]

  kaigara_run-code :
      (app_names scopes cmd : Str) (ignore : Option Str) (environ args : List Str)
      (before after : List (ℕ × Happening S)) (now : ℕ) (e : WaitError) (code : Option ℕ)
      (m : Machine S F)
      → ((vars : List Str) → launch L cmd args vars ≡ ok tt)
      → NoEnd before
      → (kaigara_run S F sprint L app_names scopes ignore environ cmd args
          (before ++ ((now, ended e) ∷ after))
          m).0
        ≡ ok code
      → code ≡ some (exit_code e)
  unfolding kaigara_run
  kaigara_run-code app_names scopes cmd ignore environ args before after now e code m starts running
        h =
      let happenings = before ++ ((now, ended e) ∷ after) in
      let apps = watched_apps ignore (parse_app_names app_names) in
      let build : Exec (Machine S F) Env =
        focus (λ m. m.store) (λ s m. record m { store = s })
          (build_cmd_env S (parse_app_names app_names) environ (parse_scopes scopes)) in
      let files : Env → Exec (Machine S F) (Unit {0}) =
        λ env. focus (λ m. m.disk) (λ d m. record m { disk = d }) (write_files F env.files) in
      let launch : Env → Exec (Machine S F) (Option ℕ) = λ env.
        run_started S F sprint L (launch L cmd args env.vars) apps (parse_scopes scopes)
          happenings in
      let (env, built, h₁) = >>=-eq-ok build (λ env. files env >> launch env) m h in
      let (_, wrote, h₂) = >>=-eq-ok (files env) (λ _. launch env) (build m).1 h₁ in
      let u = (files env (build m).1).1 in
      run_started-exit_code apps (parse_scopes scopes) before after now e code u running (
        subst
          (λ r. (run_started S F sprint L r apps (parse_scopes scopes) happenings u).0 ≡ ok code)
          (starts env.vars) h₂)

  -- Kaigara exits with the status of the child: where its pipes are made and it can be started, and it ends,
  -- a run without panic returns the status that the child has exited with, 128 and the number of the signal
  -- that has ended it, or 1 where Wait has failed, whatever happens before and after.
  pub kaigara_run-exit_code :
      (app_names scopes cmd : Str) (ignore : Option Str) (environ args : List Str)
      (before after : List (ℕ × Happening S)) (now : ℕ) (x : Ending) (e : WaitError)
      (code : Option ℕ) (m : Machine S F)
      → ((vars : List Str) → launch L cmd args vars ≡ ok tt)
      → Reports x e
      → NoEnd before
      → (kaigara_run S F sprint L app_names scopes ignore environ cmd args
          (before ++ ((now, ended e) ∷ after))
          m).0
        ≡ ok code
      → code ≡ some (shell_status x)
  kaigara_run-exit_code app_names scopes cmd ignore environ args before after now x e code m starts
        reports running h =
      kaigara_run-code app_names scopes cmd ignore environ args before after now e code m starts
        running h
      ∙ ap some (exit_code-eq-shell_status x e reports)
