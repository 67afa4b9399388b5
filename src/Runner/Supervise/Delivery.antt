-- ===== src/Runner/Supervise/Delivery.antt =====
-- What the supervisor delivers: the signals to the child, and the end of the child to its caller.
use kaigara.Base.{
  ℕ, ◌≡◌, refl, sym, ap, ◌∙◌, some, List, [], ◌∷◌, ◌++◌, append_assoc, append-nil, arith,
}
use kaigara.Runner.ExitCode.{WaitError}
use kaigara.Runner.Supervise.{
  Signal, sigterm, sigint, sighup, Event, exited, signalled, restart, timer, Action, forward,
  terminate, kill, Supervisor, step, supervise_child, fresh,
}

abbrev pub Events : Type 0
Events = List (ℕ × Event)

-- The child does not exit during these events.
abbrev pub Running : Events → Type 0
Running [] = Unit
Running ((now, exited e) ∷ events) = ⊥
Running ((now, _) ∷ events) = Running events

unfoldable pub run : Events → Supervisor → Supervisor
run [] s = s
run ((now, e) ∷ events) s = run events (step now e s)

pub supervise_child-append :
    (events more : Events) (s : Supervisor)
    → Running events
    → supervise_child (events ++ more) s ≡ supervise_child more (run events s)
unfolding supervise_child run
supervise_child-append [] more s h = refl
supervise_child-append ((now, exited e) ∷ events) more s h = absurd h
supervise_child-append ((now, signalled g) ∷ events) more s h =
    supervise_child-append events more _ h
supervise_child-append ((now, restart r) ∷ events) more s h = supervise_child-append events more _ h
supervise_child-append ((now, timer) ∷ events) more s h = supervise_child-append events more _ h

-- The signal of an event.
abbrev pub received_now : ℕ → Event → List (ℕ × Signal)
received_now now (signalled g) = (now, g) ∷ []
received_now now _ = []

-- The signals in a list of events, and those that were forwarded.
abbrev pub received : Events → List (ℕ × Signal)
received [] = []
received ((now, e) ∷ events) = received_now now e ++ received events

abbrev pub forwarded : List Action → List (ℕ × Signal)
forwarded [] = []
forwarded (forward t g ∷ acts) = (t, g) ∷ forwarded acts
forwarded (_ ∷ acts) = forwarded acts

forwarded-append : (xs ys : List Action) → forwarded (xs ++ ys) ≡ forwarded xs ++ forwarded ys
forwarded-append [] ys = refl
forwarded-append (forward t g ∷ xs) ys = ap (λ r. (t, g) ∷ r) (forwarded-append xs ys)
forwarded-append (terminate t ∷ xs) ys = forwarded-append xs ys
forwarded-append (kill t ∷ xs) ys = forwarded-append xs ys

forwarded-step :
    (now : ℕ) (e : Event) (s : Supervisor)
    → forwarded (step now e s).actions ≡ forwarded s.actions ++ received_now now e
unfolding step
forwarded-step now (exited e) s = sym (append-nil _)
forwarded-step now (signalled sighup) s = forwarded-append s.actions (forward now sighup ∷ [])
forwarded-step now (signalled sigterm) s = forwarded-append s.actions (forward now sigterm ∷ [])
forwarded-step now (signalled sigint) s = forwarded-append s.actions (forward now sigint ∷ [])
forwarded-step now (restart r) s = forwarded-append s.actions (terminate now ∷ [])
forwarded-step now timer s =
    ground (arith, forwarded-append s.actions (kill now ∷ []), append-nil (forwarded s.actions))

forwarded-run :
    (events : Events) (s : Supervisor)
    → forwarded (run events s).actions ≡ forwarded s.actions ++ received events
unfolding run
forwarded-run [] s = sym (append-nil _)
forwarded-run ((now, e) ∷ events) s =
    forwarded-run events (step now e s)
    ∙ ap (λ r. r ++ received events) (forwarded-step now e s)
    ∙ append_assoc (forwarded s.actions) (received_now now e) (received events)

-- When the child exits, the supervisor returns what Wait has reported, whatever other events are
-- pending, and it has forwarded to the child exactly the signals received before, each at its time
-- and in order.
pub supervise_child_exit :
    (before after : Events) (now : ℕ) (e : WaitError)
    → Running before
    → let (result, s) = supervise_child (before ++ ((now, exited e) ∷ after)) fresh in
      (result ≡ some e) × (forwarded s.actions ≡ received before)
unfolding supervise_child
supervise_child_exit before after now e h =
    rw (supervise_child-append before ((now, exited e) ∷ after) fresh h)
      (refl, forwarded-run before fresh)
