-- ===== src/Runner/Goroutines/Returns.antt =====
-- kaigaraRun returns once the child has exited, however its goroutines are scheduled.
use kaigara.Base.{
  ◌≡◌, ◌≢◌, refl, ap, ◌∙◌, ◌⊎◌, inl, inr, ℕ, zero, suc, ◌+◌, ◌≤◌, ◌<◌, Bool, true, some, [], ◌∷◌,
  Str, length, length-append, arith, not, Bool-cases, if◌then◌else◌,
}
use kaigara.Runner.ExitCode.{WaitError, exit_code}
use kaigara.Runner.Goroutines.{
  StdinPoint, copying, copied, broken, breaks, Alive, Stream, MainPoint, supervising, handing,
  joining, returned, HeartPoint, beating, leaving, stopped, System, Reads, reads, at_closed, Own,
  reads_out, reads_errors, ends_out, ends_errors, waits, supervised, quits, leaves, joins, started,
  Steps,
}
use kaigara.Runner.Goroutines.Phase.{count, Inv}
use kaigara.Runner.Goroutines.Invariant.{Own-Inv, Reach-Inv, Ends-publishing}

abbrev main_rank : MainPoint → ℕ
main_rank supervising = 3
main_rank (handing e) = 2
main_rank (joining e) = 1
main_rank (returned code) = 0

abbrev stdin_rank : StdinPoint → ℕ
stdin_rank copying = 1
stdin_rank copied = 0
stdin_rank broken = 0

abbrev heart_rank : HeartPoint → ℕ
heart_rank beating = 2
heart_rank leaving = 1
heart_rank stopped = 0

-- What is left to do: the bytes to read, and the goroutines to end.
abbrev pub work : System → ℕ
work s =
    length s.out.unread
    + length s.errors.unread
    + count s.out.publishing
    + count s.errors.publishing
    + (if s.reaped then 0 else 1)
    + main_rank s.main
    + heart_rank s.heart
    + stdin_rank s.stdin

length_pos : (s : Str) → s ≢ [] → 0 < length s
length_pos [] h = absurd (h refl)
length_pos (c ∷ s) h = omega arith

reads-lt :
    {connected : Bool} {s x : Stream} → Reads connected s x → length x.unread < length s.unread
reads-lt (reads chunk rest running readable split some_bytes fits) =
    rw split (omega (arith, length-append chunk rest, length_pos chunk some_bytes))

reads_publishing :
    {connected : Bool} {s x : Stream} → Reads connected s x → x.publishing ≡ s.publishing
reads_publishing (reads chunk rest running readable split some_bytes fits) = refl

Own-lt : {connected : Bool} {s t : System} → Own connected s t → work t < work s
Own-lt (reads_out r) = omega (arith, reads-lt r, ap count (reads_publishing r))
Own-lt (reads_errors r) = omega (arith, reads-lt r, ap count (reads_publishing r))
Own-lt (ends_out e) = rw (Ends-publishing e) (omega arith)
Own-lt (ends_errors e) = rw (Ends-publishing e) (omega arith)
Own-lt (waits e exited not_yet) = rw not_yet (omega arith)
Own-lt (supervised e stage given) = rw stage (omega arith)
Own-lt (quits e stage beats) = rw (stage, beats) (omega arith)
Own-lt (leaves stage) = rw stage (omega arith)
Own-lt (joins e stage all) = rw stage (omega arith)
Own-lt (breaks e copies exited) = rw copies (omega arith)

-- A run of Kaigara's own steps, by their number.
pub data OwnRun (connected : Bool) (s : System) : ℕ → System → Type 0 where
  none_yet : OwnRun connected s zero s
  one_more :
      {n : ℕ} {t u : System}
      → OwnRun connected s n t
      → Alive t
      → Own connected t u
      → OwnRun connected s (suc n) u

Own-status : {connected : Bool} {s t : System} → Own connected s t → t.status ≡ s.status
Own-status (reads_out r) = refl
Own-status (reads_errors r) = refl
Own-status (ends_out e) = refl
Own-status (ends_errors e) = refl
Own-status (waits e exited not_yet) = refl
Own-status (supervised e stage given) = refl
Own-status (quits e stage beats) = refl
Own-status (leaves stage) = refl
Own-status (joins e stage all) = refl
Own-status (breaks e copies exited) = refl

OwnRun_lem :
    {connected : Bool} {s t : System} {n : ℕ}
    → Inv s
    → OwnRun connected s n t
    → Inv t × (t.status ≡ s.status) × (n + work t ≤ work s)
OwnRun_lem inv none_yet = (inv, refl, omega arith)
OwnRun_lem inv (one_more run alive step) =
    let (kept, same, less) = OwnRun_lem inv run in
    (Own-Inv kept step, Own-status step ∙ same, omega (arith, Own-lt step))

Heart-cases : (h : HeartPoint) → (h ≡ beating) ⊎ ((h ≡ leaving) ⊎ (h ≡ stopped))
Heart-cases beating = inl refl
Heart-cases leaving = inr (inl refl)
Heart-cases stopped = inr (inr refl)

Stdin-cases : (point : StdinPoint) → (point ≡ broken) ⊎ (point ≢ broken)
Stdin-cases copying = inr (λ e. ground arith)
Stdin-cases copied = inr (λ e. ground arith)
Stdin-cases broken = inl refl

-- Some goroutine can make a step, or kaigaraRun has returned the exit code.
abbrev GoesOn : Bool → WaitError → System → Type 0
GoesOn connected e s = (s.main ≡ returned (exit_code e)) ⊎ ((t : System) × Own connected s t)

module _ (connected : Bool) (s : System) (e : WaitError) (exited : s.status ≡ some e)
    (reaped : s.reaped ≡ true) (inv : Inv s) where
  -- At the WaitGroup: the heartbeat leaves, each Publish meets its closed pipe, or nothing is left.
  joining-GoesOn : (f : WaitError) → s.main ≡ joining f → s.heart ≢ beating → GoesOn connected e s
  joining-GoesOn f stage heart = elim (Heart-cases s.heart) [
    | inl h ↦ absurd (heart h)
    | inr (inl h) ↦ inr (_, leaves h)
    | inr (inr h) ↦ elim (Bool-cases s.out.publishing) [
      | inl p ↦ inr (_, ends_out (at_closed p (inv.out_kept.1 ∙ ap not reaped)))
      | inr p ↦ elim (Bool-cases s.errors.publishing) [
        | inl q ↦ inr (_, ends_errors (at_closed q (inv.errors_kept.1 ∙ ap not reaped)))
        | inr q ↦ inr (_, joins f stage (rw (h, p, q) at inv.counted))
      ]
    ]
  ]

  main-GoesOn : (m : MainPoint) → s.main ≡ m → GoesOn connected e s
  main-GoesOn supervising stage =
      let (heart, where_from) = rw stage at inv.phase in
      elim where_from [
        | inl (running, _) ↦ absurd (cc)
        | inr (_, f, is, given) ↦ inr (_, supervised f stage given)
      ]
  main-GoesOn (handing f) stage =
      let (heart, _, is) = rw stage at inv.phase in inr (_, quits f stage heart)
  main-GoesOn (joining f) stage =
      let (heart, _, is) = rw stage at inv.phase in joining-GoesOn f stage heart
  main-GoesOn (returned code) stage =
      let (_, _, _, _, f, is, code_is) = rw stage at inv.phase in
      let same : f ≡ e = ground arith in inl (stage ∙ ap returned (code_is ∙ ap exit_code same))

exited-GoesOn :
    (connected : Bool) (s : System) (e : WaitError)
    → s.status ≡ some e
    → Inv s
    → GoesOn connected e s
exited-GoesOn connected s e exited inv = elim (Bool-cases s.reaped) [
  | inl r ↦ main-GoesOn connected s e exited r inv s.main refl
  | inr r ↦ inr (_, waits e exited r)
]

-- Once the child has exited, kaigaraRun returns its exit code, or the relay of stdin panics: from every
-- state in reach, a run of Kaigara's own steps, in any order, with or without Redis, has at most as many
-- as there is work left at its start, and until then some goroutine can go on.
pub kaigara_run_returns :
    (connected : Bool) (s t : System) (n : ℕ) (e : WaitError)
    → Steps connected started s
    → s.status ≡ some e
    → OwnRun connected s n t
    → (n ≤ work s)
      × ((t.main ≡ returned (exit_code e))
          ⊎ ((t.stdin ≡ broken) ⊎ (Alive t × (u : System) × Own connected t u)))
kaigara_run_returns connected s t n e reached exited run =
    let (kept, same, less) = OwnRun_lem (Reach-Inv reached) run in
    (
      omega arith,
      elim (exited-GoesOn connected t e (same ∙ exited) kept) [
        | inl done ↦ inl done
        | inr (u, step) ↦ elim (Stdin-cases t.stdin) [
          | inl dead ↦ inr (inl dead)
          | inr alive ↦ inr (inr (alive, u, step))
        ]
      ],
    )
