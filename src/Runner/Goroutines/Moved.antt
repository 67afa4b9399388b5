-- ===== src/Runner/Goroutines/Moved.antt =====
-- What one step of the goroutines of kaigaraRun does to the output of the child.
use kaigara.Base.{◌≡◌, refl, ◌∙◌, ◌⊎◌, inl, inr, Bool, true}
use kaigara.Runner.Goroutines.{
  breaks, input_ends, refuses, Stream, System, Written, Reads, Own, reads_out, reads_errors,
  ends_out, ends_errors, waits, supervised, quits, leaves, joins, writes_out, writes_errors, exits,
  beats_on, Step, own, outside,
}

-- What a stream has relayed, and what is left of it.
abbrev pub SameOutput : Stream → Stream → Type 0
SameOutput s t = (t.relayed ≡ s.relayed) × (t.unread ≡ s.unread) × (t.written ≡ s.written)

pub SameOutput-trans : (s t u : Stream) → SameOutput s t → SameOutput t u → SameOutput s u
SameOutput-trans s t u (a, b, c) (d, e, f) = (d ∙ a, e ∙ b, f ∙ c)

-- A read, something from the child, or nothing that shows.
abbrev pub Moved : Bool → Stream → Stream → Type 0
Moved connected s t = Reads connected s t ⊎ (Written s t ⊎ SameOutput s t)

module _ (connected : Bool) where
  pub stays : (s : Stream) → Moved connected s s
  stays s = inr (inr (refl, refl, refl))

  -- Both streams, and a child that was reaped stays so.
  abbrev pub Moves : System → System → Type 0
  Moves s t =
      Moved connected s.out t.out
      × Moved connected s.errors t.errors
      × (s.reaped ≡ true → t.reaped ≡ true)

  Own-Moves : {s t : System} → Own connected s t → Moves s t
  Own-Moves {s} (reads_out r) = (inl r, stays s.errors, λ h. h)
  Own-Moves {s} (reads_errors r) = (stays s.out, inl r, λ h. h)
  Own-Moves {s} (ends_out e) = (inr (inr (refl, refl, refl)), stays s.errors, λ h. h)
  Own-Moves {s} (ends_errors e) = (stays s.out, inr (inr (refl, refl, refl)), λ h. h)
  Own-Moves (waits e exited not_yet) =
      (inr (inr (refl, refl, refl)), inr (inr (refl, refl, refl)), λ h. refl)
  Own-Moves {s} (supervised e stage given) = (stays s.out, stays s.errors, λ h. h)
  Own-Moves {s} (quits e stage beats) = (stays s.out, stays s.errors, λ h. h)
  Own-Moves {s} (leaves stage) = (stays s.out, stays s.errors, λ h. h)
  Own-Moves {s} (joins e stage all) = (stays s.out, stays s.errors, λ h. h)
  Own-Moves {s} (breaks e copies exited) = (stays s.out, stays s.errors, λ h. h)

  pub Step-Moves : {s t : System} → Step connected s t → Moves s t
  Step-Moves (own alive o) = Own-Moves o
  Step-Moves {s} (outside alive (writes_out w)) = (inr (inl w), stays s.errors, λ h. h)
  Step-Moves {s} (outside alive (writes_errors w)) = (stays s.out, inr (inl w), λ h. h)
  Step-Moves {s} (outside alive (exits e running)) = (stays s.out, stays s.errors, λ h. h)
  Step-Moves {s} (outside alive (beats_on stage)) = (stays s.out, stays s.errors, λ h. h)
  Step-Moves {s} (outside alive (input_ends copies)) = (stays s.out, stays s.errors, λ h. h)
  Step-Moves {s} (outside alive (refuses copies)) = (stays s.out, stays s.errors, λ h. h)
