-- ===== src/Runner/Supervise/Escalation.antt =====
-- The SIGKILL to a child that does not stop.
use kaigara.Base.{ℕ, ◌+◌, ◌≤◌, ◌≡◌, ◌⊎◌, inl, inr, none, some, [], ◌∷◌, ◌++◌, arith}
use kaigara.Runner.Supervise.{
  sigterm, sigint, sighup, Event, exited, signalled, restart, timer, Action, kill, Supervisor,
  shutdown_grace, arm, step, on_timer, supervise_child,
}
use kaigara.Runner.Supervise.Laws.{SomeAction, some-append_left, some-append_right, on_timer-cases}
use kaigara.Runner.Supervise.Delivery.{Events, Running, run, supervise_child-append}

abbrev pub IsKill : Action → Type 0
IsKill (kill t) = Unit
IsKill _ = ⊥

-- Armed with this deadline, or a SIGKILL has been sent.
abbrev Escalating : ℕ → Supervisor → Type 0
Escalating d s = (s.kill_deadline ≡ some d) ⊎ SomeAction IsKill s.actions

-- What was done to the child stays in the list.
pub step-SomeAction :
    (P : Action → Type 0) (now : ℕ) (e : Event) (s : Supervisor)
    → SomeAction P s.actions
    → SomeAction P (step now e s).actions
unfolding step
step-SomeAction P now (exited e) s h = h
step-SomeAction P now (signalled sighup) s h = some-append_left P s.actions _ h
step-SomeAction P now (signalled sigterm) s h = some-append_left P s.actions _ h
step-SomeAction P now (signalled sigint) s h = some-append_left P s.actions _ h
step-SomeAction P now (restart r) s h = some-append_left P s.actions _ h
step-SomeAction P now timer s h = elim (on_timer-cases now s) [
  | inl idle ↦ rw idle h
  | inr (d', armed, due, fired) ↦ rw fired (some-append_left P s.actions (kill now ∷ []) h)
]

pub supervise_child-SomeAction :
    (P : Action → Type 0) (events : Events) (s : Supervisor)
    → SomeAction P s.actions
    → SomeAction P (supervise_child events s).1.actions
unfolding supervise_child
supervise_child-SomeAction P [] s h = h
supervise_child-SomeAction P ((now, exited e) ∷ events) s h = h
supervise_child-SomeAction P ((now, signalled g) ∷ events) s h =
    supervise_child-SomeAction P events _ (step-SomeAction P now (signalled g) s h)
supervise_child-SomeAction P ((now, restart r) ∷ events) s h =
    supervise_child-SomeAction P events _ (step-SomeAction P now (restart r) s h)
supervise_child-SomeAction P ((now, timer) ∷ events) s h =
    supervise_child-SomeAction P events _ (step-SomeAction P now timer s h)

step-Escalating :
    (d now : ℕ) (e : Event) (s : Supervisor) → Escalating d s → Escalating d (step now e s)
unfolding step
step-Escalating d now (exited e) s h = h
step-Escalating d now (signalled sighup) s (inl h) = inl h
step-Escalating d now (signalled sigterm) s (inl h) = inl (ground arith)
step-Escalating d now (signalled sigint) s (inl h) = inl (ground arith)
step-Escalating d now (restart r) s (inl h) = inl (ground arith)
step-Escalating d now timer s (inl h) = elim (on_timer-cases now s) [
  | inl idle ↦ rw idle (inl h)
  | inr (d', armed, due, fired) ↦ rw fired (inr (some-append_right IsKill s.actions (kill now) tt))
]
step-Escalating d now e s (inr h) = inr (step-SomeAction IsKill now e s h)

run-Escalating :
    (d : ℕ) (events : Events) (s : Supervisor) → Escalating d s → Escalating d (run events s)
unfolding run
run-Escalating d [] s h = h
run-Escalating d ((now, e) ∷ events) s h = run-Escalating d events _ (step-Escalating d now e s h)

-- The events that ask the child to stop.
abbrev pub Asks : Event → Type 0
Asks (signalled sighup) = ⊥
Asks (signalled g) = Unit
Asks (restart r) = Unit
Asks _ = ⊥

step-armed :
    (asked : ℕ) (e : Event) (s : Supervisor)
    → Asks e
    → s.kill_deadline ≡ none
    → (step asked e s).kill_deadline ≡ some (asked + shutdown_grace)
unfolding step arm
step-armed asked (signalled sighup) s a h = absurd a
step-armed asked (signalled sigterm) s a h = ground arith
step-armed asked (signalled sigint) s a h = ground arith
step-armed asked (restart r) s a h = ground arith
step-armed asked (exited e) s a h = absurd a
step-armed asked timer s a h = absurd a

timer-kills :
    (d now : ℕ) (s : Supervisor)
    → d ≤ now
    → Escalating d s
    → SomeAction IsKill (step now timer s).actions
unfolding step
timer-kills d now s due (inr h) = step-SomeAction IsKill now timer s h
timer-kills d now s due (inl armed) =
    let fired : on_timer now s
        ≡ record { kill_deadline = none; actions = s.actions ++ (kill now ∷ []) } =
      ground arith in
    rw fired (some-append_right IsKill s.actions (kill now) tt)

Asks-Running :
    (e : Event) (asked : ℕ) (between : Events)
    → Asks e
    → Running between
    → Running ((asked, e) ∷ between)
Asks-Running (exited e) asked between a h = absurd a
Asks-Running (signalled g) asked between a h = h
Asks-Running (restart r) asked between a h = h
Asks-Running timer asked between a h = h

-- A child that is asked to stop while no deadline is armed, and that still runs when the timer goes off
-- at least the grace period later, is killed, whatever happens in between.
pub supervise_child_escalates :
    (asked now : ℕ) (e : Event) (between after : Events) (s : Supervisor)
    → s.kill_deadline ≡ none
    → Asks e
    → Running between
    → asked + shutdown_grace ≤ now
    → SomeAction IsKill
        (supervise_child ((asked, e) ∷ (between ++ ((now, timer) ∷ after))) s).1.actions
unfolding supervise_child run
supervise_child_escalates asked now e between after s disarmed asks running due =
    let t = run between (step asked e s) in
    let armed =
      run-Escalating (asked + shutdown_grace) between (step asked e s)
        (inl (step-armed asked e s asks disarmed)) in
    rw
      (supervise_child-append ((asked, e) ∷ between) ((now, timer) ∷ after) s
        (Asks-Running e asked between asks running))
      (supervise_child-SomeAction IsKill after (step now timer t)
        (timer-kills (asked + shutdown_grace) now t due armed))
