-- ===== src/Logs/Relayed.antt =====
-- What Publish relays.
use kaigara.Base.{
  ◌≤◌, ◌≡◌, ◌≢◌, refl, sym, ap, ◌∙◌, Bool, true, false, List, [], ◌∷◌, ◌++◌, append_assoc,
  append-nil, Str, length, All, arith, if◌then◌else◌, Bool-cases, inl, inr,
}
use kaigara.Logs.{ReadResult, Relay, publish_buf_size, relay, publish}

-- The output of the child: the bytes of all reads up to the first error, with those of that read.
abbrev pub output : List ReadResult → Str
output [] = []
output (read ∷ reads) = read.content ++ (if read.failed then [] else output reads)

abbrev pub concat : List Str → Str
concat [] = []
concat (s ∷ ss) = s ++ concat ss

pub concat-append : (ss ts : List Str) → concat (ss ++ ts) ≡ concat ss ++ concat ts
concat-append [] ts = refl
concat-append (s ∷ ss) ts =
    ap (λ r. s ++ r) (concat-append ss ts) ∙ sym (append_assoc s (concat ss) (concat ts))

pub relay-stdout :
    (connected : Bool) (s : Str) (r : Relay) → (relay connected s r).stdout ≡ r.stdout ++ s
unfolding relay
relay-stdout connected [] r = sym (append-nil r.stdout)
relay-stdout true (c ∷ s) r = refl
relay-stdout false (c ∷ s) r = refl

pub relay-messages :
    (s : Str) (r : Relay) → concat (relay true s r).messages ≡ concat r.messages ++ s
unfolding relay
relay-messages [] r = sym (append-nil (concat r.messages))
relay-messages (c ∷ s) r =
    concat-append r.messages ((c ∷ s) ∷ []) ∙ ap (λ x. concat r.messages ++ (c ∷ x)) (append-nil s)

publish-stdout :
    (connected : Bool) (reads : List ReadResult) (r : Relay)
    → (publish connected reads r).stdout ≡ r.stdout ++ output reads
unfolding publish
publish-stdout connected [] r = sym (append-nil r.stdout)
publish-stdout connected (read ∷ reads) r = elim (Bool-cases read.failed) [
  | inl e ↦ rw e (
      relay-stdout connected read.content r
      ∙ ap (λ x. r.stdout ++ x) (sym (append-nil read.content)))
  | inr e ↦ rw e (
      publish-stdout connected reads (relay connected read.content r)
      ∙ ap (λ x. x ++ output reads) (relay-stdout connected read.content r)
      ∙ append_assoc r.stdout read.content (output reads))
]

publish-messages :
    (reads : List ReadResult) (r : Relay)
    → concat (publish true reads r).messages ≡ concat r.messages ++ output reads
unfolding publish
publish-messages [] r = sym (append-nil (concat r.messages))
publish-messages (read ∷ reads) r = elim (Bool-cases read.failed) [
  | inl e ↦ rw e (
      relay-messages read.content r
      ∙ ap (λ x. concat r.messages ++ x) (sym (append-nil read.content)))
  | inr e ↦ rw e (
      publish-messages reads (relay true read.content r)
      ∙ ap (λ x. x ++ output reads) (relay-messages read.content r)
      ∙ append_assoc (concat r.messages) read.content (output reads))
]

abbrev pub quiet : Relay
quiet = record { stdout = []; messages = [] }

-- Publish relays the output of the child, nothing less and nothing more: stdout gets the bytes of all
-- reads up to the first error, those of that read included, and with a client the published messages,
-- one after the other, are the same bytes.
pub publish_lem :
    (reads : List ReadResult)
    → ((connected : Bool) → (publish connected reads quiet).stdout ≡ output reads)
      × (concat (publish true reads quiet).messages ≡ output reads)
publish_lem reads =
    (λ connected. publish-stdout connected reads quiet, publish-messages reads quiet)

-- The messages of a relay fit the buffer, and none is empty.
abbrev pub IsMessage : Str → Type 0
IsMessage s = (s ≢ []) × (length s ≤ publish_buf_size)

All-append : (P : Str → Type 0) (ss : List Str) (s : Str) → All P ss → P s → All P (ss ++ (s ∷ []))
All-append P [] s h p = (p, tt)
All-append P (x ∷ ss) s h p = (h.0, All-append P ss s h.1 p)

pub relay-IsMessage :
    (connected : Bool) (s : Str) (r : Relay)
    → length s ≤ publish_buf_size
    → All IsMessage r.messages
    → All IsMessage (relay connected s r).messages
unfolding relay
relay-IsMessage connected [] r fits h = h
relay-IsMessage true (c ∷ s) r fits h =
    All-append IsMessage r.messages (c ∷ s) h (λ p. ground arith, fits)
relay-IsMessage false (c ∷ s) r fits h = h

-- Where no read returns more bytes than the buffer holds, and the messages so far are neither
-- empty nor longer than the buffer, no message after the relay is either.
pub publish-IsMessage :
    (connected : Bool) (reads : List ReadResult) (r : Relay)
    → All (λ (x : ReadResult). length x.content ≤ publish_buf_size) reads
    → All IsMessage r.messages
    → All IsMessage (publish connected reads r).messages
unfolding publish
publish-IsMessage connected [] r fits h = h
publish-IsMessage connected (read ∷ reads) r fits h =
    let one = relay-IsMessage connected read.content r fits.0 h in
    elim (Bool-cases read.failed) [
      | inl e ↦ rw e one
      | inr e ↦ rw e (publish-IsMessage connected reads (relay connected read.content r) fits.1 one)
    ]
