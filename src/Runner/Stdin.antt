-- ===== src/Runner/Stdin.antt =====
-- kaigaraRun of cmd/kaigara/kaigara.go: the goroutine that reads the standard input line by line and
-- writes it to the child. What is to come on the standard input is a text and how it ends.
pub mod Lines
pub mod Relayed
use kaigara.Base.{
  ℕ, zero, suc, Bool, true, false, Option, none, some, [], ◌∷◌, Str, ◌==◌, if◌then◌else◌,
}
use kaigara.Base.Exec.{
  Exec, Outcome, ok, err, panic, Error, of_error, pure, abort, must, continue, ◌>>=◌, ◌>>◌,
}

-- What ReadSlice('\n') of a bufio.Reader returns: the bytes before a newline, those of a full buffer, or
-- those before the end, and what is left.
pub data Slice : Type 0 where
  found full : Str → Str → Slice
  ended : Str → Slice

abbrev pub put_byte : ℕ → Slice → Slice
put_byte c (found line rest) = found (c ∷ line) rest
put_byte c (full line rest) = full (c ∷ line) rest
put_byte c (ended line) = ended (c ∷ line)

-- With room for so many bytes.
unfoldable pub read_slice : ℕ → Str → Slice
read_slice zero s = full [] s
read_slice (suc n) [] = ended []
read_slice (suc n) (c ∷ s) =
    let rest = read_slice n s in if c == b'\n' then found [] s else put_byte c rest

-- Whether the last byte is a carriage return, and the bytes without it.
unfoldable pub cut_cr : Str → Bool × Str
cut_cr [] = (false, [])
cut_cr (c ∷ []) = if c == b'\r' then (true, []) else (false, c ∷ [])
cut_cr (c ∷ d ∷ s) = let (cut, line) = cut_cr (d ∷ s) in (cut, c ∷ line)

-- ReadLine: the line, isPrefix, and what is left; `none` at the end. A carriage return at the end of a
-- full buffer is put back.
unfoldable pub line_of : Slice → Option (Str × Bool × Str)
line_of (found line rest) = some ((cut_cr line).1, false, rest)
line_of (full line rest) =
    let (cut, shorter) = cut_cr line in
    if cut then some (shorter, true, b'\r' ∷ rest) else some (line, true, rest)
line_of (ended []) = none
line_of (ended (c ∷ line)) = some (c ∷ line, false, [])

unfoldable pub read_line : ℕ → Str → Option (Str × Bool × Str)
unfolding read_slice line_of
read_line size s = line_of (read_slice size s)

-- The pipe to the child.
pub record Pipe : Type 1 where
  pub State : Type 0
  pub write : Str → Exec State (Unit {0})
  pub close : State → State

module _ (P : Pipe) where
  unfoldable pub write_newline : Bool → Exec P.State (Unit {0})
  write_newline true = pure tt
  write_newline false = must (P.write (b'\n' ∷ []))

  -- At the end of the input the pipe is closed; another error panics.
  unfoldable pub at_end : Option Error → Exec P.State Bool
  at_end none s = (ok true, P.close s)
  at_end (some e) s = (panic (of_error e), s)

  -- The loop, with a buffer of `size` bytes, 4096 for bufio.NewReader. The result is false where the
  -- fuel ran out before the end of the input.
  unfoldable pub relay_stdin : ℕ → Option Error → ℕ → Str → Exec P.State Bool
  unfolding write_newline at_end
  relay_stdin size failed zero input = pure false
  relay_stdin size failed (suc fuel) input = elim (read_line size input) [
    | none ↦ at_end failed
    | some (line, is_prefix, rest) ↦ (do
      must (P.write line)
      write_newline is_prefix
      relay_stdin size failed fuel rest)
  ]
