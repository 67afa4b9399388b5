-- ===== src/Tests/Concurrent.antt =====
-- The theorems on the goroutines of kaigaraRun, applied: the child writes a line and exits with code 0.
use kaigara.Base.{
  ◌≢◌, arith, ◌≡◌, refl, true, false, some, none, List, [], ◌∷◌, ◌++◌, Str, bytes, ◌≤◌, ◌⊎◌,
}
use kaigara.Logs.{Beat, quit, heart_beat, set_key, delete_key, service_key}
use kaigara.Logs.Relayed.{quiet}
use kaigara.Runner.ExitCode.{WaitError, no_error, exit_code}
use kaigara.Runner.Goroutines.{
  copying, broken, Alive, System, returned, stopped, writes, at_closed, Own, ends_out, ends_errors,
  waits, supervised, quits, leaves, joins, writes_out, exits, own, outside, new_stream, started,
  Steps, here, next, closed, ended,
}
use kaigara.Runner.Goroutines.Returns.{work, none_yet, one_more, kaigara_run_returns}
use kaigara.Runner.Goroutines.Joined.{renewals, returned_lem}
use kaigara.Runner.Goroutines.Told.{Told, relayed_lem}
use kaigara.Runner.Goroutines.Lost.{reaped_lem, output_may_be_lost}

abbrev line : Str
line = bytes "ready"

running : copying ≢ broken
running e = ground arith

-- The child has written a line and exited.
abbrev after_exit : System
after_exit = record started {
  out = record new_stream { written = line; unread = line };
  status = some no_error;
}

after_exit_reached : Steps true started after_exit
after_exit_reached =
    next (next here (outside running (writes_out (writes line refl refl (omega arith)))))
      (outside running (exits no_error refl))

-- Then Wait has returned.
abbrev after_wait : System
after_wait = record after_exit {
  reaped = true;
  wait_done = some no_error;
  out = closed after_exit.out;
  errors = closed new_stream;
}

after_wait_reached : Steps true started after_wait
after_wait_reached = next after_exit_reached (own running (waits no_error refl refl))

-- And in the end kaigaraRun.
abbrev at_end : System
at_end = record after_wait {
  wait_done = none;
  out = ended after_wait.out;
  errors = ended after_wait.errors;
  main = returned 0;
  heart = stopped;
  wait_group = 0;
  beats = quit ∷ [];
}

to_end : Steps true after_wait at_end
unfolding exit_code
to_end =
    next
      (next
        (next
          (next
            (next (next here (own running (supervised no_error refl refl)))
              (own running (quits no_error refl refl)))
            (own running (leaves refl)))
          (own running (ends_out (at_closed refl refl))))
        (own running (ends_errors (at_closed refl refl))))
      (own running (joins no_error refl refl))

at_end_reached : Steps true started at_end
unfolding exit_code
at_end_reached =
    next
      (next
        (next
          (next
            (next (next after_wait_reached (own running (supervised no_error refl refl)))
              (own running (quits no_error refl refl)))
            (own running (leaves refl)))
          (own running (ends_out (at_closed refl refl))))
        (own running (ends_errors (at_closed refl refl))))
      (own running (joins no_error refl refl))

kaigara_run_returns_example :
    (1 ≤ work after_exit)
    × ((after_wait.main ≡ returned (exit_code no_error))
        ⊎ ((after_wait.stdin ≡ broken) ⊎ (Alive after_wait × (u : System) × Own true after_wait u)))
kaigara_run_returns_example =
    kaigara_run_returns true after_exit after_wait 1 no_error after_exit_reached refl
      (one_more none_yet running (waits no_error refl refl))

returned_lem_example :
    ((e : WaitError) × (at_end.status ≡ some e) × (0 ≡ exit_code e))
    × (at_end.out.publishing ≡ false)
    × (at_end.errors.publishing ≡ false)
    × (at_end.heart ≡ stopped)
    × ((rounds : List Beat) × (heart_beat true (bytes "peatio") at_end.beats
          ≡ set_key (service_key (bytes "peatio")) 20
            ∷ (renewals (service_key (bytes "peatio")) rounds
                ++ (delete_key (service_key (bytes "peatio")) ∷ []))))
returned_lem_example = returned_lem true (bytes "peatio") 0 at_end at_end_reached refl

relayed_lem_example :
    (at_end.out.relayed.stdout ++ at_end.out.unread ≡ at_end.out.written)
    × (at_end.errors.relayed.stdout ++ at_end.errors.unread ≡ at_end.errors.written)
    × Told true at_end.out
    × Told true at_end.errors
relayed_lem_example = relayed_lem true at_end at_end_reached

reaped_lem_example :
    (at_end.out.relayed ≡ after_wait.out.relayed)
    × (at_end.errors.relayed ≡ after_wait.errors.relayed)
    × (at_end.out.relayed.stdout ++ after_wait.out.unread ≡ at_end.out.written)
    × (at_end.errors.relayed.stdout ++ after_wait.errors.unread ≡ at_end.errors.written)
reaped_lem_example = reaped_lem true after_wait at_end after_wait_reached refl to_end

output_may_be_lost_example :
    (s : System) × Steps false started s
    × (s.main ≡ returned 0)
    × (s.out.written ≡ line)
    × (s.out.relayed ≡ quiet)
output_may_be_lost_example = output_may_be_lost false line (omega arith)
