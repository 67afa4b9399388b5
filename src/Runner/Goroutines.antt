-- ===== src/Runner/Goroutines.antt =====
-- kaigaraRun of cmd/kaigara/kaigara.go, from the start of the child on: the goroutines that relay its
-- output, wait for it and send the heartbeat, with os/exec's pipes, and how kaigaraRun joins them. What
-- superviseChild does to the child meanwhile is in Runner/Supervise; here the child does as it likes.
pub mod Phase
pub mod Invariant
pub mod Returns
pub mod Joined
pub mod Moved
pub mod Told
pub mod Lost
use kaigara.Base.{
  ◌≡◌, ◌≢◌, ℕ, ◌-◌, ◌≤◌, Bool, true, false, Option, none, some, List, [], ◌∷◌, ◌++◌, Str, length,
}
use kaigara.Logs.{Relay, relay, publish_buf_size, Beat, quit, ten_seconds}
use kaigara.Logs.Relayed.{quiet}
use kaigara.Runner.ExitCode.{WaitError, exit_code}

-- A pipe from the child with its Publish: what the child has written in all, what nobody has read yet,
-- whether the child's end and Kaigara's end are open, what was relayed, and whether Publish still runs.
pub record Stream : Type 0 where
  pub written : Str
  pub unread : Str
  pub writable : Bool
  pub readable : Bool
  pub relayed : Relay
  pub publishing : Bool

-- Where kaigaraRun is: in superviseChild, at `quit <- 0`, at `wg.Wait()`, or at its return.
pub data MainPoint : Type 0 where
  supervising : MainPoint
  handing joining : WaitError → MainPoint
  returned : ℕ → MainPoint

-- Where HeartBeat is: in its loop, after quit, or returned.
pub data HeartPoint : Type 0 where
  beating leaving stopped : HeartPoint

-- Where the relay of stdin is: in its loop, at the end of the input, or in a panic, which ends Kaigara.
pub data StdinPoint : Type 0 where
  copying copied broken : StdinPoint

-- The status is that of the child's process, none while it runs; `wait_done` is the channel of one place,
-- `wait_group` the counter of the WaitGroup, and `beats` what has woken the heartbeat.
pub record System : Type 0 where
  pub out : Stream
  pub errors : Stream
  pub status : Option WaitError
  pub reaped : Bool
  pub wait_done : Option WaitError
  pub main : MainPoint
  pub heart : HeartPoint
  pub wait_group : ℕ
  pub beats : List Beat
  pub stdin : StdinPoint

-- What a pipe holds: 64 KiB on Linux.
abbrev pub pipe_capacity : ℕ
pipe_capacity = 65536

-- What the child, or one that it has started, does to a pipe: a write fails once Kaigara's end is closed,
-- and waits for room in the pipe; of a longer one, each part that finds room is a step.
pub data Written (s : Stream) : Stream → Type 0 where
  writes :
      (text : Str)
      → s.writable ≡ true
      → s.readable ≡ true
      → length (s.unread ++ text) ≤ pipe_capacity
      → Written s (record s { written = s.written ++ text; unread = s.unread ++ text })
  hangs_up : Written s (record s { writable = false })

-- One round of the loop of Publish: a read of some of what is there.
pub data Reads (connected : Bool) (s : Stream) : Stream → Type 0 where
  reads :
      (chunk rest : Str)
      → s.publishing ≡ true
      → s.readable ≡ true
      → s.unread ≡ chunk ++ rest
      → chunk ≢ []
      → length chunk ≤ publish_buf_size
      → Reads connected s (record s { unread = rest; relayed = relay connected chunk s.relayed })

-- The error on which Publish returns: io.EOF, or os.ErrClosed.
pub data Ends (s : Stream) : Type 0 where
  at_eof : s.publishing ≡ true → s.readable ≡ true → s.unread ≡ [] → s.writable ≡ false → Ends s
  at_closed : s.publishing ≡ true → s.readable ≡ false → Ends s

abbrev pub ended : Stream → Stream
ended s = record s { publishing = false }

-- exec.Cmd.Wait closes Kaigara's end of the pipes once the process has exited, read or not.
abbrev pub closed : Stream → Stream
closed s = record s { readable = false }

-- The steps of Kaigara's goroutines.
pub data Own (connected : Bool) (s : System) : System → Type 0 where
  reads_out : {x : Stream} → Reads connected s.out x → Own connected s (record s { out = x })
  reads_errors :
      {x : Stream} → Reads connected s.errors x → Own connected s (record s { errors = x })
  ends_out :
      Ends s.out → Own connected s (record s { out = ended s.out; wait_group = s.wait_group - 1 })
  ends_errors :
      Ends s.errors
      → Own connected s (record s { errors = ended s.errors; wait_group = s.wait_group - 1 })
  waits :
      (e : WaitError)
      → s.status ≡ some e
      → s.reaped ≡ false
      → Own connected s (record s {
        reaped = true;
        wait_done = some e;
        out = closed s.out;
        errors = closed s.errors;
      })
  supervised :
      (e : WaitError)
      → s.main ≡ supervising
      → s.wait_done ≡ some e
      → Own connected s (record s { main = handing e; wait_done = none })
  quits :
      (e : WaitError)
      → s.main ≡ handing e
      → s.heart ≡ beating
      → Own connected s
          (record s { main = joining e; heart = leaving; beats = s.beats ++ (quit ∷ []) })
  leaves :
      s.heart ≡ leaving
      → Own connected s (record s { heart = stopped; wait_group = s.wait_group - 1 })
  joins :
      (e : WaitError)
      → s.main ≡ joining e
      → s.wait_group ≡ 0
      → Own connected s (record s { main = returned (exit_code e) })
  -- A write to a child that has ended fails.
  breaks :
      (e : WaitError)
      → s.stdin ≡ copying
      → s.status ≡ some e
      → Own connected s (record s { stdin = broken })

-- What comes from outside: the child's output and its end, ten seconds without a quit, the end of the
-- input, and a child that closes its end of it.
pub data Outside (s : System) : System → Type 0 where
  writes_out : {x : Stream} → Written s.out x → Outside s (record s { out = x })
  writes_errors : {x : Stream} → Written s.errors x → Outside s (record s { errors = x })
  exits : (e : WaitError) → s.status ≡ none → Outside s (record s { status = some e })
  beats_on : s.heart ≡ beating → Outside s (record s { beats = s.beats ++ (ten_seconds ∷ []) })
  input_ends : s.stdin ≡ copying → Outside s (record s { stdin = copied })
  refuses : s.stdin ≡ copying → Outside s (record s { stdin = broken })

abbrev pub Alive : System → Type 0
Alive s = s.stdin ≢ broken

pub data Step (connected : Bool) (s : System) : System → Type 0 where
  own : {t : System} → Alive s → Own connected s t → Step connected s t
  outside : {t : System} → Alive s → Outside s t → Step connected s t

abbrev pub new_stream : Stream
new_stream = record {
  written = [];
  unread = [];
  writable = true;
  readable = true;
  relayed = quiet;
  publishing = true;
}

-- After c.Start: `wg.Add(3)`, and all goroutines running.
abbrev pub started : System
started = record {
  out = new_stream;
  errors = new_stream;
  status = none;
  reaped = false;
  wait_done = none;
  main = supervising;
  heart = beating;
  wait_group = 3;
  beats = [];
  stdin = copying;
}

pub data Steps (connected : Bool) (s : System) : System → Type 0 where
  here : Steps connected s s
  next : {t u : System} → Steps connected s t → Step connected t u → Steps connected s u
