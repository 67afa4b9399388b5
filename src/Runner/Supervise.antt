-- ===== src/Runner/Supervise.antt =====
-- superviseChild of cmd/kaigara/kaigara.go: the loop that relays signals and stop requests to the
-- child and kills it when the grace period is over.
pub mod Laws
pub mod Delivery
pub mod Escalation
use kaigara.Base.{
  ℕ, ◌+◌, Bool, true, false, not, Option, none, some, List, [], ◌∷◌, ◌++◌, Str, leb, if◌then◌else◌,
}
use kaigara.Runner.ExitCode.{WaitError}

-- shutdownGrace, in milliseconds
abbrev pub shutdown_grace : ℕ
shutdown_grace = 8000

pub data Signal : Type 0 where
  sigterm sigint sighup : Signal

-- What makes `select` go on: a value on one of the channels, or the timer. The timer fires only when it
-- is armed and its time has come; at another moment the event `timer` is no event.
pub data Event : Type 0 where
  exited : WaitError → Event
  signalled : Signal → Event
  restart : Str → Event
  timer : Event

-- What is done to the child, and when: a signal forwarded, the SIGTERM of a restart, or SIGKILL.
pub data Action : Type 0 where
  forward : ℕ → Signal → Action
  terminate : ℕ → Action
  kill : ℕ → Action

-- killDeadline: nil, or the time at which it fires. Errors of signalling are only logged.
pub record Supervisor : Type 0 where
  pub kill_deadline : Option ℕ
  pub actions : List Action

-- `if killDeadline == nil { killDeadline = time.After(shutdownGrace) }`
unfoldable pub arm : ℕ → Option ℕ → Option ℕ
arm now none = some (now + shutdown_grace)
arm now (some d) = some d

unfoldable pub on_signal : ℕ → Signal → Supervisor → Supervisor
unfolding arm
on_signal now sighup s = record s { actions = s.actions ++ (forward now sighup ∷ []) }
on_signal now sig s = record {
  kill_deadline = arm now s.kill_deadline;
  actions = s.actions ++ (forward now sig ∷ []);
}

unfoldable pub on_restart : ℕ → Supervisor → Supervisor
unfolding arm
on_restart now s = record {
  kill_deadline = arm now s.kill_deadline;
  actions = s.actions ++ (terminate now ∷ []);
}

abbrev pub fires : ℕ → Option ℕ → Bool
fires now none = false
fires now (some d) = leb d now

unfoldable pub on_timer : ℕ → Supervisor → Supervisor
on_timer now s =
    if fires now s.kill_deadline
    then record { kill_deadline = none; actions = s.actions ++ (kill now ∷ []) }
    else s

-- One iteration of the loop that does not return.
unfoldable pub step : ℕ → Event → Supervisor → Supervisor
unfolding on_signal on_restart on_timer
step now (exited e) s = s
step now (signalled sig) s = on_signal now sig s
step now (restart reason) s = on_restart now s
step now timer s = on_timer now s

-- The loop over the events in the order in which `select` takes them, each with its time; the result
-- is none while the child has not exited.
unfoldable pub supervise_child : List (ℕ × Event) → Supervisor → Option WaitError × Supervisor
supervise_child [] s = (none, s)
supervise_child ((now, exited e) ∷ events) s = (some e, s)
supervise_child ((now, signalled sig) ∷ events) s =
    supervise_child events (step now (signalled sig) s)
supervise_child ((now, restart reason) ∷ events) s =
    supervise_child events (step now (restart reason) s)
supervise_child ((now, timer) ∷ events) s = supervise_child events (step now timer s)

abbrev pub fresh : Supervisor
fresh = record { kill_deadline = none; actions = [] }
