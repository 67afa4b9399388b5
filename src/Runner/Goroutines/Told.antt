-- ===== src/Runner/Goroutines/Told.antt =====
-- What the relay of the child's output has told, at every moment.
use kaigara.Base.{
  ◌≡◌, refl, sym, ap, ◌∙◌, inl, inr, Bool, true, false, [], ◌∷◌, ◌++◌, append_assoc, Str, All,
}
use kaigara.Logs.{Relay, relay}
use kaigara.Logs.Relayed.{concat, relay-messages, IsMessage, relay-IsMessage}
use kaigara.Runner.Goroutines.{
  Stream, System, writes, hangs_up, reads, started, new_stream, Steps, here, next,
}
use kaigara.Runner.Goroutines.Moved.{Moved, Step-Moves}
use kaigara.Runner.Goroutines.Invariant.{Reach-Inv}

-- With a client, the messages are the output that was read, in parts that are messages; without, there are
-- none.
abbrev pub Told : Bool → Stream → Type 0
Told true s = (concat s.relayed.messages ++ s.unread ≡ s.written) × All IsMessage s.relayed.messages
Told false s = s.relayed.messages ≡ []

relay_quiet : (chunk : Str) (r : Relay) → (relay false chunk r).messages ≡ r.messages
unfolding relay
relay_quiet [] r = refl
relay_quiet (c ∷ chunk) r = refl

Moved-Told :
    (connected : Bool) (s t : Stream) → Moved connected s t → Told connected s → Told connected t
Moved-Told true s t (inl (reads chunk rest running readable split some_bytes fits)) (told, each) = (
  ap (λ x. x ++ rest) (relay-messages chunk s.relayed)
      ∙ append_assoc (concat s.relayed.messages) chunk rest
      ∙ ap (λ x. concat s.relayed.messages ++ x) (sym split)
      ∙ told,
  relay-IsMessage true chunk s.relayed fits each,
)
Moved-Told false s t (inl (reads chunk rest running readable split some_bytes fits)) told =
    relay_quiet chunk s.relayed ∙ told
Moved-Told true s t (inr (inl (writes text open_end readable room))) (told, each) =
    (sym (append_assoc (concat s.relayed.messages) s.unread text) ∙ ap (λ x. x ++ text) told, each)
Moved-Told false s t (inr (inl (writes text open_end readable room))) told = told
Moved-Told true s t (inr (inl hangs_up)) told = told
Moved-Told false s t (inr (inl hangs_up)) told = told
Moved-Told true s t (inr (inr (relayed, unread, written))) told = rw (relayed, unread, written) told
Moved-Told false s t (inr (inr (relayed, unread, written))) told = rw relayed told

new-Told : (connected : Bool) → Told connected new_stream
new-Told true = (refl, tt)
new-Told false = refl

Steps-Told :
    (connected : Bool) {t : System}
    → Steps connected started t
    → Told connected t.out × Told connected t.errors
Steps-Told connected here = (new-Told connected, new-Told connected)
Steps-Told connected {t} (next {t = u} steps step) =
    let (out, errors) = Steps-Told connected steps in
    let (out', errors', _) = Step-Moves connected step in
    (
      Moved-Told connected u.out t.out out' out,
      Moved-Told connected u.errors t.errors errors' errors,
    )

-- At every moment, for each of the two streams, what has come to stdout from the child, with what is still
-- unread, is what the child has written; and with a client so are the published messages, one after the
-- other, none of which is empty or longer than the buffer. Without a client there are none.
pub relayed_lem :
    (connected : Bool) (s : System)
    → Steps connected started s
    → (s.out.relayed.stdout ++ s.out.unread ≡ s.out.written)
      × (s.errors.relayed.stdout ++ s.errors.unread ≡ s.errors.written)
      × Told connected s.out
      × Told connected s.errors
relayed_lem connected s reached =
    let inv = Reach-Inv reached in
    let (out, errors) = Steps-Told connected reached in
    (inv.out_kept.0, inv.errors_kept.0, out, errors)
