-- ===== src/Runner/Supervise/Laws.antt =====
-- When the child is signalled and killed, over every order of events.
use kaigara.Base.{
  ℕ, ◌+◌, ◌≤◌, ◌≡◌, ◌⊎◌, inl, inr, none, some, List, [], ◌∷◌, ◌++◌, append_assoc, append-nil, arith,
  leb, Bool-cases, Option-cases,
}
use kaigara.Runner.Supervise.{
  sigterm, sigint, sighup, Event, exited, signalled, restart, timer, Action, forward, terminate,
  kill, Supervisor, shutdown_grace, arm, step, on_timer, supervise_child, fresh,
}

-- An action that asks the child to stop, at this time or before it.
abbrev pub AsksBy : ℕ → Action → Type 0
AsksBy t (forward u sighup) = ⊥
AsksBy t (forward u sig) = u ≤ t
AsksBy t (terminate u) = u ≤ t
AsksBy t (kill u) = ⊥

abbrev pub SomeAction : (Action → Type 0) → List Action → Type 0
SomeAction P [] = ⊥
SomeAction P (a ∷ acts) = P a ⊎ SomeAction P acts

pub some-append_left :
    (P : Action → Type 0) (acts bs : List Action) → SomeAction P acts → SomeAction P (acts ++ bs)
some-append_left P [] bs h = absurd h
some-append_left P (a ∷ acts) bs (inl h) = inl h
some-append_left P (a ∷ acts) bs (inr h) = inr (some-append_left P acts bs h)

pub some-append_right :
    (P : Action → Type 0) (acts : List Action) (b : Action) → P b → SomeAction P (acts ++ (b ∷ []))
some-append_right P [] b h = inl h
some-append_right P (a ∷ acts) b h = inr (some-append_right P acts b h)

-- Each SIGKILL of the list comes at least the grace period after a request to stop that stands before
-- it; `before` are the actions before the list.
abbrev pub KillsAfterGrace : List Action → List Action → Type 0
KillsAfterGrace before [] = Unit
KillsAfterGrace before (kill t ∷ acts) =
    ((asked : ℕ) × (asked + shutdown_grace ≤ t) × SomeAction (AsksBy asked) before)
    × KillsAfterGrace (before ++ (kill t ∷ [])) acts
KillsAfterGrace before (a ∷ acts) = KillsAfterGrace (before ++ (a ∷ [])) acts

kills-append :
    (before acts more : List Action)
    → KillsAfterGrace before acts
    → KillsAfterGrace (before ++ acts) more
    → KillsAfterGrace before (acts ++ more)
kills-append before [] more h k = rw append-nil at k
kills-append before (kill t ∷ acts) more h k = (
  h.0,
  kills-append (before ++ (kill t ∷ [])) acts more h.1
      (rw (append_assoc before (kill t ∷ []) acts) k),
)
kills-append before (terminate t ∷ acts) more h k =
    kills-append (before ++ (terminate t ∷ [])) acts more h
      (rw (append_assoc before (terminate t ∷ []) acts) k)
kills-append before (forward t g ∷ acts) more h k =
    kills-append (before ++ (forward t g ∷ [])) acts more h
      (rw (append_assoc before (forward t g ∷ []) acts) k)

-- The invariant: the kills so far are justified, and an armed deadline is the grace period after a
-- request to stop.
pub record IsPatient (s : Supervisor) : Type 0 where
  pub kills : KillsAfterGrace [] s.actions
  pub armed :
      (d : ℕ)
      → s.kill_deadline ≡ some d
      → (asked : ℕ) × (d ≡ asked + shutdown_grace) × SomeAction (AsksBy asked) s.actions

-- A deadline stays justified when actions are added.
module _ (s : Supervisor) (h : IsPatient s) where
  still_armed :
      (more : List Action) (d : ℕ)
      → s.kill_deadline ≡ some d
      → (asked : ℕ) × (d ≡ asked + shutdown_grace) × SomeAction (AsksBy asked) (s.actions ++ more)
  still_armed more d e =
      let (asked, same, found) = h.armed d e in
      (asked, same, some-append_left (AsksBy asked) s.actions more found)

  newly_armed :
      (now : ℕ) (a : Action)
      → AsksBy now a
      → (d : ℕ) → arm now s.kill_deadline ≡ some d
      → (asked : ℕ) × (d ≡ asked + shutdown_grace)
        × SomeAction (AsksBy asked) (s.actions ++ (a ∷ []))
  unfolding arm
  newly_armed now a asks d e = elim (Option-cases s.kill_deadline) [
    | inl disarmed ↦ (now, ground arith, some-append_right (AsksBy now) s.actions a asks)
    | inr (d', armed) ↦ still_armed (a ∷ []) d (ground arith)
  ]

pub on_timer-cases :
    (now : ℕ) (s : Supervisor)
    → (on_timer now s ≡ s)
      ⊎ ((d : ℕ) × (s.kill_deadline ≡ some d)
          × (d ≤ now)
          × (on_timer now s
              ≡ record { kill_deadline = none; actions = s.actions ++ (kill now ∷ []) }))
unfolding on_timer
on_timer-cases now s = elim (Option-cases s.kill_deadline) [
  | inl e ↦ inl (ground arith)
  | inr (d, e) ↦ elim (Bool-cases (leb d now)) [
    | inl due ↦ inr (d, e, ground arith, ground arith)
    | inr early ↦ inl (ground arith)
  ]
]

pub step-IsPatient : (now : ℕ) (e : Event) (s : Supervisor) → IsPatient s → IsPatient (step now e s)
unfolding step
step-IsPatient now (exited e) s h = h
step-IsPatient now (signalled sighup) s h = record {
  kills = kills-append [] s.actions (forward now sighup ∷ []) h.kills tt;
  armed = still_armed s h (forward now sighup ∷ []);
}
step-IsPatient now (signalled sigterm) s h = record {
  kills = kills-append [] s.actions (forward now sigterm ∷ []) h.kills tt;
  armed = newly_armed s h now (forward now sigterm) (omega arith);
}
step-IsPatient now (signalled sigint) s h = record {
  kills = kills-append [] s.actions (forward now sigint ∷ []) h.kills tt;
  armed = newly_armed s h now (forward now sigint) (omega arith);
}
step-IsPatient now (restart reason) s h = record {
  kills = kills-append [] s.actions (terminate now ∷ []) h.kills tt;
  armed = newly_armed s h now (terminate now) (omega arith);
}
step-IsPatient now timer s h = elim (on_timer-cases now s) [
  | inl idle ↦ rw idle h
  | inr (d, armed, due, fired) ↦
      let (asked, same, found) = h.armed d armed in
      rw fired (record {
        kills = kills-append [] s.actions (kill now ∷ []) h.kills ((asked, omega arith, found), tt);
        armed = λ d' e. ground arith;
      })
]

supervise_child-IsPatient :
    (events : List (ℕ × Event)) (s : Supervisor)
    → IsPatient s
    → IsPatient (supervise_child events s).1
unfolding supervise_child
supervise_child-IsPatient [] s h = h
supervise_child-IsPatient ((now, exited e) ∷ events) s h = h
supervise_child-IsPatient ((now, signalled sig) ∷ events) s h =
    supervise_child-IsPatient events _ (step-IsPatient now (signalled sig) s h)
supervise_child-IsPatient ((now, restart reason) ∷ events) s h =
    supervise_child-IsPatient events _ (step-IsPatient now (restart reason) s h)
supervise_child-IsPatient ((now, timer) ∷ events) s h =
    supervise_child-IsPatient events _ (step-IsPatient now timer s h)

-- Over every sequence of events, each SIGKILL comes at least the grace period after a SIGTERM or SIGINT
-- that was forwarded, or the SIGTERM of a restart; a SIGHUP is no such request.
pub kills_after_grace :
    (events : List (ℕ × Event)) → KillsAfterGrace [] (supervise_child events fresh).1.actions
kills_after_grace events =
    (supervise_child-IsPatient events fresh
      (record { kills = tt; armed = λ d e. ground arith })).kills
