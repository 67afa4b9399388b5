-- ===== src/Runner/Stdin/Relayed.antt =====
-- What the child gets on its standard input.
use kaigara.Base.{
  ℕ, zero, suc, ◌<◌, ◌≤◌, ◌≡◌, refl, sym, Bool, true, false, Option, none, some, [], ◌∷◌, ◌++◌, Str,
  length, arith, ◌⊎◌, inl, inr, ap, ◌∙◌, append_assoc, append-nil,
}
use kaigara.Base.Exec.{Outcome, ok, panic, Error, of_error}
use kaigara.Runner.Stdin.{Pipe, read_line, write_newline, at_end, relay_stdin}
use kaigara.Runner.Stdin.Lines.{without_cr, is_terminated, line_end, IsRead, read_line-IsRead}
use kaigara.Runner.Stdin.Lines

-- A pipe that takes every write.
pub record IsOpen (P : Pipe) : Type 0 where
  pub contents : P.State → Str
  pub takes : (s : Str) (w : P.State) → (P.write s w).0 ≡ ok tt
  pub appends : (s : Str) (w : P.State) → contents (P.write s w).1 ≡ contents w ++ s
  pub closes : (w : P.State) → contents (P.close w) ≡ contents w

-- How the relay ends.
unfoldable pub ending : Option Error → Outcome Bool
ending none = ok true
ending (some e) = panic (of_error e)

module _ {P : Pipe} (pipe : IsOpen P) where
  -- The pipe once a line is written.
  abbrev sent : Str → Bool → P.State → P.State
  sent line is_prefix w = (write_newline P is_prefix (P.write line w).1).1

  write_newline-contents :
      (is_prefix : Bool) (w : P.State)
      → ((write_newline P is_prefix w).0 ≡ ok tt)
        × (pipe.contents (write_newline P is_prefix w).1 ≡ pipe.contents w ++ line_end is_prefix)
  unfolding write_newline
  write_newline-contents true w = (refl, sym (append-nil (pipe.contents w)))
  write_newline-contents false w =
      (rw (pipe.takes (b'\n' ∷ []) w) refl, pipe.appends (b'\n' ∷ []) w)

  sent-contents :
      (line : Str) (is_prefix : Bool) (w : P.State)
      → pipe.contents (sent line is_prefix w) ≡ pipe.contents w ++ (line ++ line_end is_prefix)
  sent-contents line is_prefix w =
      (write_newline-contents is_prefix (P.write line w).1).1
      ∙ ap (λ t. t ++ line_end is_prefix) (pipe.appends line w)
      ∙ append_assoc (pipe.contents w) line (line_end is_prefix)

  relay_step :
      (size fuel : ℕ) (failed : Option Error) (input line rest : Str) (is_prefix : Bool)
      (w : P.State)
      → read_line size input ≡ some (line, is_prefix, rest)
      → relay_stdin P size failed (suc fuel) input w
        ≡ relay_stdin P size failed fuel rest (sent line is_prefix w)
  unfolding relay_stdin
  relay_step size fuel failed input line rest is_prefix w read =
      rw
        (
          relay_stdin,
          read,
          pipe.takes line w,
          (write_newline-contents is_prefix (P.write line w).1).0,
        )
        refl

  relay_at_end :
      (size fuel : ℕ) (failed : Option Error) (input : Str) (w : P.State)
      → read_line size input ≡ none
      → relay_stdin P size failed (suc fuel) input w ≡ at_end P failed w
  unfolding relay_stdin
  relay_at_end size fuel failed input w read = rw (relay_stdin, read) refl

  -- What the child has got on its standard input: the text that it should get, and a newline more only
  -- where the text does not end in one.
  pub record Got (input : Str) (before after : P.State) : Type 0 where
    pub extra : Str
    pub is_newline : (extra ≡ []) ⊎ ((extra ≡ b'\n' ∷ []) × (is_terminated input ≡ false))
    pub got : pipe.contents after ≡ pipe.contents before ++ (without_cr input ++ extra)

  -- What is got of the rest is got of the text.
  step-Got :
      (input line rest : Str) (is_prefix : Bool) (w after : P.State)
      → without_cr input ≡ line ++ (line_end is_prefix ++ without_cr rest)
      → (is_terminated input ≡ true → is_terminated rest ≡ true)
      → Got rest (sent line is_prefix w) after
      → Got input w after
  step-Got input line rest is_prefix w after is ends h = record {
    extra = h.extra;
    is_newline = elim h.is_newline [
      | inl e ↦ inl e
      | inr (e, open_end) ↦ inr (e, ground (arith, ends))
    ];
    got =
        h.got
        ∙ ap (λ t. t ++ (without_cr rest ++ h.extra)) (sent-contents line is_prefix w)
        ∙ rw is (simp append_assoc);
  }

  at_end-Got :
      (failed : Option Error) (w : P.State)
      → ((at_end P failed w).0 ≡ ending failed)
        × (pipe.contents (at_end P failed w).1 ≡ pipe.contents w)
  unfolding at_end ending
  at_end-Got none w = (refl, pipe.closes w)
  at_end-Got (some e) w = (refl, refl)

  -- A last line that nothing ends.
  last-Got :
      (input : Str) (w after : P.State)
      → without_cr input ≡ input
      → is_terminated input ≡ false
      → Got [] (sent input false w) after
      → Got input w after
  unfolding without_cr is_terminated
  last-Got input w after is open_end h =
      let none_more : h.extra ≡ [] = elim h.is_newline [ inl e ↦ e | inr (e, f) ↦ ground arith ] in
      record {
        extra = b'\n' ∷ [];
        is_newline = inr (refl, open_end);
        got =
            h.got
            ∙ rw none_more (append-nil (pipe.contents (sent input false w)))
            ∙ sent-contents input false w
            ∙ ap (λ t. pipe.contents w ++ (t ++ (b'\n' ∷ []))) (sym is);
      }

  abbrev Relays : ℕ → ℕ → Option Error → Str → P.State → Type 0
  Relays size fuel failed input w =
      ((relay_stdin P size failed fuel input w).0 ≡ ending failed)
      × Got input w (relay_stdin P size failed fuel input w).1

  -- One round of the loop, by what ReadLine has returned.
  relay_round :
      (size fuel : ℕ) (failed : Option Error) (input : Str) (w : P.State)
      (read : Option (Str × Bool × Str))
      → read_line size input ≡ read
      → IsRead input read
      → length input < suc fuel
      → ((rest : Str) (w' : P.State) → length rest < fuel → Relays size fuel failed rest w')
      → Relays size (suc fuel) failed input w
  unfolding without_cr
  relay_round size fuel failed input w _ read (Lines.at_end is) enough more =
      let (ends, same) = at_end-Got failed w in
      rw (relay_at_end size fuel failed input w read) (
        ends,
        record {
          extra = [];
          is_newline = inl refl;
          got = same ∙ rw is (sym (append-nil (pipe.contents w)));
        },
      )
  relay_round size fuel failed input w _ read
        (Lines.part {line = line} {rest = rest} {is_prefix = p} shorter is terminated) enough more =
      let (ends, got) = more rest (sent line p w) (ground arith) in
      rw (relay_step size fuel failed input line rest p w read)
        (ends, step-Got input line rest p w _ is terminated got)
  relay_round size fuel failed input w _ read (Lines.last is open_end nonempty) enough more =
      let (ends, got) = more [] (sent input false w) (ground arith) in
      rw (relay_step size fuel failed input input [] false w read)
        (ends, last-Got input w _ is open_end got)

  -- With fuel above the input's length and a buffer of two bytes or more, the relay ends, by a panic where
  -- stdin ended in an error, and an open pipe has got all the input, without the carriage returns before
  -- newlines, and with a newline more only where the input does not end in one.
  pub relay_stdin_lem :
      (size fuel : ℕ) (failed : Option Error) (input : Str) (w : P.State)
      → 2 ≤ size
      → length input < fuel
      → ((relay_stdin P size failed fuel input w).0 ≡ ending failed)
        × Got input w (relay_stdin P size failed fuel input w).1
  relay_stdin_lem size zero failed input w room enough = ground arith
  relay_stdin_lem size (suc fuel) failed input w room enough =
      relay_round size fuel failed input w _ refl (read_line-IsRead size input room) enough
        (λ rest w' fits. relay_stdin_lem size fuel failed rest w' room fits)
