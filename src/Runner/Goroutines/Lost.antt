-- ===== src/Runner/Goroutines/Lost.antt =====
-- What os/exec's Wait does to the output of the child that nobody has read.
use kaigara.Base.{
  ◌≢◌, arith, ◌≡◌, refl, ap, ◌∙◌, inl, inr, Bool, true, false, not, ◌++◌, Str, length, ◌≤◌,
}
use kaigara.Logs.Relayed.{quiet}
use kaigara.Runner.ExitCode.{no_error, exit_code}
use kaigara.Runner.Goroutines.{
  copying, broken, Stream, returned, System, writes, hangs_up, reads, at_closed, ends_out,
  ends_errors, waits, supervised, quits, leaves, joins, writes_out, exits, own, outside, started,
  Steps, here, next, pipe_capacity,
}
use kaigara.Runner.Goroutines.Moved.{SameOutput, SameOutput-trans, Moved, Step-Moves}
use kaigara.Runner.Goroutines.Phase.{Inv}
use kaigara.Runner.Goroutines.Invariant.{Step-Inv, Reach-Inv}

-- A stream whose end at Kaigara is closed.
Moved-closed :
    {connected : Bool} (s t : Stream) → s.readable ≡ false → Moved connected s t → SameOutput s t
Moved-closed s t shut (inl (reads chunk rest running readable split some_bytes fits)) = absurd (cc)
Moved-closed s t shut (inr (inl (writes text open_end readable room))) = absurd (cc)
Moved-closed s t shut (inr (inl hangs_up)) = (refl, refl, refl)
Moved-closed s t shut (inr (inr same)) = same

-- What happens once the child was reaped.
Steps-closed :
    {connected : Bool} {s t : System}
    → s.reaped ≡ true
    → Inv s
    → Steps connected s t
    → Inv t × (t.reaped ≡ true) × SameOutput s.out t.out × SameOutput s.errors t.errors
Steps-closed reaped inv here = (inv, reaped, (refl, refl, refl), (refl, refl, refl))
Steps-closed {connected} {s} {t} reaped inv (next {t = u} steps step) =
    let (kept, still, out, errors) = Steps-closed reaped inv steps in
    let (out', errors', stays_reaped) = Step-Moves connected step in
    let last = Moved-closed u.out t.out (kept.out_kept.1 ∙ ap not still) out' in
    let last' = Moved-closed u.errors t.errors (kept.errors_kept.1 ∙ ap not still) errors' in
    (
      Step-Inv kept step,
      stays_reaped still,
      SameOutput-trans s.out u.out t.out out last,
      SameOutput-trans s.errors u.errors t.errors errors last',
    )

-- What the child has written and nobody has read when Wait has returned is lost, and nothing else: in every
-- later state a stream has relayed what it had, to which that unread rest would make up all that was written.
pub reaped_lem :
    (connected : Bool) (s t : System)
    → Steps connected started s
    → s.reaped ≡ true
    → Steps connected s t
    → (t.out.relayed ≡ s.out.relayed)
      × (t.errors.relayed ≡ s.errors.relayed)
      × (t.out.relayed.stdout ++ s.out.unread ≡ t.out.written)
      × (t.errors.relayed.stdout ++ s.errors.unread ≡ t.errors.written)
reaped_lem connected s t reached reaped steps =
    let inv = Reach-Inv reached in
    let (_, _, (out, rest, all), (out', rest', all')) = Steps-closed reaped inv steps in
    (out, out', rw (out, all) inv.out_kept.0, rw (out', all') inv.errors_kept.0)

-- Whatever the child has written at once before it exits, up to the 64 KiB that a pipe holds, all of it can
-- be lost, on a run that returns 0.
pub output_may_be_lost :
    (connected : Bool) (text : Str)
    → length text ≤ pipe_capacity
    → (s : System) × Steps connected started s
      × (s.main ≡ returned 0)
      × (s.out.written ≡ text)
      × (s.out.relayed ≡ quiet)
unfolding exit_code
output_may_be_lost connected text room =
    let running : copying ≢ broken = λ e. ground arith in
    (
      _,
      next
          (next
            (next
              (next
                (next
                  (next
                    (next
                      (next (next here (outside running (writes_out (writes text refl refl room))))
                        (outside running (exits no_error refl)))
                      (own running (waits no_error refl refl)))
                    (own running (supervised no_error refl refl)))
                  (own running (quits no_error refl refl)))
                (own running (leaves refl)))
              (own running (ends_out (at_closed refl refl))))
            (own running (ends_errors (at_closed refl refl))))
          (own running (joins no_error refl refl)),
      refl,
      refl,
      refl,
    )
