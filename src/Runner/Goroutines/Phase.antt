-- ===== src/Runner/Goroutines/Phase.antt =====
-- What each point of kaigaraRun says of its goroutines, and how the steps change it.
use kaigara.Base.{
  ◌≡◌, ◌≢◌, refl, sym, ap, ◌∙◌, ◌⊎◌, inl, inr, ℕ, ◌+◌, Bool, true, false, Option, none, some, List,
  [], ◌∷◌, ◌++◌, append_assoc, Str, All, not, arith,
}
use kaigara.Logs.{relay, Beat, quit, ten_seconds}
use kaigara.Logs.Relayed.{relay-stdout}
use kaigara.Runner.ExitCode.{WaitError, exit_code}
use kaigara.Runner.Goroutines.{
  Stream, MainPoint, supervising, handing, joining, returned, HeartPoint, beating, leaving, stopped,
  System,
}

abbrev pub count : Bool → ℕ
count true = 1
count false = 0

abbrev pub heart_count : HeartPoint → ℕ
heart_count beating = 1
heart_count leaving = 1
heart_count stopped = 0

-- What each point of kaigaraRun says of the rest: whether the child was reaped, what the channel holds,
-- the child's status, the heartbeat, and whether the two Publish still run.
abbrev pub Phase :
    MainPoint → Bool → Option WaitError → Option WaitError → HeartPoint → Bool → Bool → Type 0
Phase supervising reaped wait_done status heart out errors =
    (heart ≡ beating)
    × (((reaped ≡ false) × (wait_done ≡ none))
        ⊎ ((reaped ≡ true) × (e : WaitError) × (status ≡ some e) × (wait_done ≡ some e)))
Phase (handing e) reaped wait_done status heart out errors =
    (heart ≡ beating) × (reaped ≡ true) × (status ≡ some e)
Phase (joining e) reaped wait_done status heart out errors =
    (heart ≢ beating) × (reaped ≡ true) × (status ≡ some e)
Phase (returned code) reaped wait_done status heart out errors =
    (heart ≡ stopped)
    × (reaped ≡ true)
    × (out ≡ false)
    × (errors ≡ false)
    × (e : WaitError) × (status ≡ some e)
    × (code ≡ exit_code e)

-- Nothing that the child has written is lost while it is unread, and nothing else is relayed.
abbrev pub Conserved : Stream → Type 0
Conserved s = s.relayed.stdout ++ s.unread ≡ s.written

-- That, and Kaigara's end is closed exactly when the child was reaped.
abbrev pub Kept : Bool → Stream → Type 0
Kept reaped s = Conserved s × (s.readable ≡ not reaped)

-- The heartbeat has run through its rounds, and has got one quit once it has left its loop.
abbrev pub Heard : HeartPoint → List Beat → Type 0
Heard beating beats = All (λ b. b ≡ ten_seconds) beats
Heard leaving beats =
    (rounds : List Beat) × All (λ b. b ≡ ten_seconds) rounds × (beats ≡ rounds ++ (quit ∷ []))
Heard stopped beats =
    (rounds : List Beat) × All (λ b. b ≡ ten_seconds) rounds × (beats ≡ rounds ++ (quit ∷ []))

pub record Inv (s : System) : Type 0 where
  pub counted :
      s.wait_group ≡ count s.out.publishing + count s.errors.publishing + heart_count s.heart
  pub phase :
      Phase s.main s.reaped s.wait_done s.status s.heart s.out.publishing s.errors.publishing
  pub out_kept : Kept s.reaped s.out
  pub errors_kept : Kept s.reaped s.errors
  pub heard : Heard s.heart s.beats

pub Conserved-reads :
    (connected : Bool) (chunk rest : Str) (s : Stream)
    → s.unread ≡ chunk ++ rest
    → Conserved s
    → (relay connected chunk s.relayed).stdout ++ rest ≡ s.written
Conserved-reads connected chunk rest s split h =
    ap (λ x. x ++ rest) (relay-stdout connected chunk s.relayed)
    ∙ append_assoc s.relayed.stdout chunk rest
    ∙ ap (λ x. s.relayed.stdout ++ x) (sym split)
    ∙ h

pub Conserved-writes :
    (text : Str) (s : Stream)
    → Conserved s
    → s.relayed.stdout ++ (s.unread ++ text) ≡ s.written ++ text
Conserved-writes text s h =
    sym (append_assoc s.relayed.stdout s.unread text) ∙ ap (λ x. x ++ text) h

-- The end of a Publish, and the child's, change no phase but for the better.
pub Phase-ended :
    (m : MainPoint) (reaped : Bool) (wait_done status : Option WaitError) (heart : HeartPoint)
    (out errors : Bool)
    → Phase m reaped wait_done status heart out errors
    → Phase m reaped wait_done status heart false errors
      × Phase m reaped wait_done status heart out false
Phase-ended supervising reaped wait_done status heart out errors h = (h, h)
Phase-ended (handing e) reaped wait_done status heart out errors h = (h, h)
Phase-ended (joining e) reaped wait_done status heart out errors h = (h, h)
Phase-ended (returned code) reaped wait_done status heart out errors (a, b, c, d, e, is, code_is) =
    ((a, b, refl, d, e, is, code_is), (a, b, c, refl, e, is, code_is))

pub Phase-exits :
    (m : MainPoint) (reaped : Bool) (wait_done status : Option WaitError) (heart : HeartPoint)
    (out errors : Bool) (e : WaitError)
    → status ≡ none
    → Phase m reaped wait_done status heart out errors
    → Phase m reaped wait_done (some e) heart out errors
Phase-exits supervising reaped wait_done status heart out errors e h (a, inl b) = (a, inl b)
Phase-exits supervising reaped wait_done status heart out errors e h (a, inr b) = ground arith
Phase-exits (handing f) reaped wait_done status heart out errors e h k = ground arith
Phase-exits (joining f) reaped wait_done status heart out errors e h k = ground arith
Phase-exits (returned code) reaped wait_done status heart out errors e h k = ground arith

-- A child that has not been reaped is still supervised.
pub Phase-waits :
    (m : MainPoint) (reaped : Bool) (wait_done status : Option WaitError) (heart : HeartPoint)
    (out errors : Bool) (e : WaitError)
    → reaped ≡ false
    → status ≡ some e
    → Phase m reaped wait_done status heart out errors
    → Phase m true (some e) status heart out errors
Phase-waits supervising reaped wait_done status heart out errors e h is (a, b) =
    (a, inr (refl, e, is, refl))
Phase-waits (handing f) reaped wait_done status heart out errors e h is k = ground arith
Phase-waits (joining f) reaped wait_done status heart out errors e h is k = ground arith
Phase-waits (returned code) reaped wait_done status heart out errors e h is k = ground arith

pub Phase-leaves :
    (m : MainPoint) (reaped : Bool) (wait_done status : Option WaitError) (heart : HeartPoint)
    (out errors : Bool)
    → heart ≡ leaving
    → Phase m reaped wait_done status heart out errors
    → Phase m reaped wait_done status stopped out errors
Phase-leaves supervising reaped wait_done status heart out errors h k = ground arith
Phase-leaves (handing f) reaped wait_done status heart out errors h k = ground arith
Phase-leaves (joining f) reaped wait_done status heart out errors h (a, b, c) =
    (λ e. ground arith, b, c)
Phase-leaves (returned code) reaped wait_done status heart out errors h k = ground arith

pub Phase-supervised :
    (m : MainPoint) (reaped : Bool) (wait_done status : Option WaitError) (heart : HeartPoint)
    (out errors : Bool) (e : WaitError)
    → m ≡ supervising
    → wait_done ≡ some e
    → Phase m reaped wait_done status heart out errors
    → Phase (handing e) reaped none status heart out errors
Phase-supervised supervising reaped wait_done status heart out errors e h given (a, inl b) =
    ground arith
Phase-supervised supervising reaped wait_done status heart out errors e h given
      (a, inr (b, f, is, put)) =
    (a, b, ground arith)
Phase-supervised (handing f) reaped wait_done status heart out errors e h given k = ground arith
Phase-supervised (joining f) reaped wait_done status heart out errors e h given k = ground arith
Phase-supervised (returned code) reaped wait_done status heart out errors e h given k = ground arith

pub All-ten :
    (beats : List Beat)
    → All (λ b. b ≡ ten_seconds) beats
    → All (λ b. b ≡ ten_seconds) (beats ++ (ten_seconds ∷ []))
All-ten [] h = (refl, tt)
All-ten (b ∷ beats) (h, hs) = (h, All-ten beats hs)
