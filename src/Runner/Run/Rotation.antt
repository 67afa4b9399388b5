-- ===== src/Runner/Run/Rotation.antt =====
-- From new secrets in the store to the end of the child.
use kaigara.Base.{
  ℕ, ◌+◌, ◌≤◌, ◌≡◌, ◌≢◌, refl, sym, ap, ◌∙◌, true, Option, some, List, [], ◌∷◌, ◌++◌, Str, All,
  Among, arith, inl, subst,
}
use kaigara.Base.Exec.{ok, pure, >>=-eq-ok}
use kaigara.Base.Int64.{ℤ, negsuc}
use kaigara.Storage.Interface.{Storage}
use kaigara.Encryptor.{Encryptor}
use kaigara.Storage.Gorm.{Gorm, IsTable, Data, row}
use kaigara.Storage.Sql.{StorageService, sql_storage, write, get_current_version}
use kaigara.Runner.Watch.Noticed.{publish, Answers, current_of-publish, check_apps-write}
use kaigara.Runner.ExitCode.{WaitError}
use kaigara.Runner.Supervise.{
  restart, timer, Action, terminate, Supervisor, shutdown_grace, step, supervise_child, fresh,
}
use kaigara.Runner.Supervise.Laws.{SomeAction}
use kaigara.Runner.Supervise.Escalation.{
  IsKill, supervise_child-SomeAction, supervise_child_escalates,
}
use kaigara.Runner.Watch.{Change, check_apps}
use kaigara.Runner.Run.{
  Happening, deadline, tick, deliver, elsewhere, Watcher, message, selected, run_child,
}
use kaigara.Runner.Run.Selected.{NoEnd, Idle, select, prefix-eq-ok, select-append, seen_change}

-- What was done at this time: the SIGTERM of a restart.
abbrev pub IsTerminateAt : ℕ → Action → Type 0
IsTerminateAt at_time (terminate t) = t ≡ at_time
IsTerminateAt at_time _ = ⊥

module _ (S : Storage) (sprint : ℤ → Str) (apps scopes : List Str) where
  -- A child whose secrets have changed is asked to stop, and killed where it does not.
  pub run_child-rotates :
      (seen taken now : ℕ) (c : Change) (idle between after : List (ℕ × Happening S))
      (reported : Option WaitError) (s : Supervisor) (w : Watcher S)
      → w.watching ≡ true
      → (check_apps S apps scopes w.store).0 ≡ ok (some c)
      → Idle idle
      → NoEnd between
      → taken + shutdown_grace ≤ now
      → (run_child S sprint apps scopes
          ((seen, tick) ∷ (idle ++ ((taken, deliver) ∷ (between ++ ((now, deadline) ∷ after)))))
          w).0
        ≡ ok (reported, s)
      → SomeAction (IsTerminateAt taken) s.actions × SomeAction IsKill s.actions
  unfolding run_child step supervise_child
  run_child-rotates seen taken now c idle between after reported s w watching change idles running
        due h =
      let more = between ++ ((now, deadline) ∷ after) in
      let (all, selected_all, supervised) =
        >>=-eq-ok (select S sprint apps scopes ((seen, tick) ∷ (idle ++ ((taken, deliver) ∷ more))))
          (λ es. pure (supervise_child es fresh)) w h in
      let (es, u, done, is) =
        seen_change S sprint apps scopes seen taken c idle more all w watching change idles
          selected_all in
      let (xs, ys, u', split, alive, later) =
        select-append S sprint apps scopes between ((now, deadline) ∷ after) es u running done in
      let (zs, _, timed) =
        prefix-eq-ok S sprint apps scopes ((now, timer) ∷ []) ys (select S sprint apps scopes after)
          u' later in
      let told = restart (message S sprint c) in
      let whole : all ≡ (taken, told) ∷ (xs ++ ((now, timer) ∷ zs)) =
        is ∙ ap (λ t. (taken, told) ∷ t) (split ∙ ap (λ t. xs ++ t) timed) in
      let same : supervise_child all fresh ≡ (reported, s) = ground arith in
      let step_eq = ap (λ t. supervise_child t fresh) (sym whole) ∙ same in
      (
        subst (λ r. SomeAction (IsTerminateAt taken) r.1.actions) step_eq
            (supervise_child-SomeAction (IsTerminateAt taken) (xs ++ ((now, timer) ∷ zs))
              (step taken told fresh) (inl refl)),
        subst (λ r. SomeAction IsKill r.1.actions) step_eq
            (supervise_child_escalates taken now told xs zs fresh refl tt alive due),
      )

module _ {G : Gorm} {E : Encryptor} (sprint : ℤ → Str) where
  -- Once the row of a scope, not at version -1, of a lawful table was written over, a watcher of any
  -- applications and scopes, these among them, that has the old version and gets both versions of each scope
  -- of the application, ticks: the child gets SIGTERM as the message is taken, with only ticks and store
  -- changes in between, and SIGKILL if it runs at a deadline the grace period later, in a run that starts
  -- with the Write and does not panic.
  pub write_stops_child :
      (app scope : Str) (apps scopes : List Str) (wrote seen taken now : ℕ) (old : Data)
      (idle between after : List (ℕ × Happening (sql_storage G E))) (reported : Option WaitError)
      (s : StorageService G E) (child : Supervisor) (w : Watcher (sql_storage G E))
      → Among app apps
      → Among scope scopes
      → All (Answers app (publish app scope s w.store)) scopes
      → IsTable G
      → G.first app scope s.db ≡ row old
      → old.version ≢ negsuc 0
      → (write app scope s).0 ≡ ok tt
      → (get_current_version app scope w.store).0 ≡ ok old.version
      → w.watching ≡ true
      → Idle idle
      → NoEnd between
      → taken + shutdown_grace ≤ now
      → (run_child
          (sql_storage G E)
          sprint
          apps
          scopes
          ((wrote, elsewhere (publish app scope s))
            ∷ (seen, tick)
            ∷ (idle ++ ((taken, deliver) ∷ (between ++ ((now, deadline) ∷ after)))))
          w).0
        ≡ ok (reported, child)
      → SomeAction (IsTerminateAt taken) child.actions × SomeAction IsKill child.actions
  unfolding run_child selected
  write_stops_child app scope apps scopes wrote seen taken now old idle between after reported s
        child w watched_app watched_scope answers table found ordinary done current watching idles
        running due h =
      let t = publish app scope s w.store in
      let (c, poll) =
        check_apps-write app scope apps scopes old s t table found ordinary done
          (current_of-publish app scope s w.store ∙ current) refl watched_app watched_scope
          answers in
      run_child-rotates (sql_storage G E) sprint apps scopes seen taken now c idle between after
        reported child (record w { store = t }) watching (ap (λ r. r.0) poll) idles running due h
