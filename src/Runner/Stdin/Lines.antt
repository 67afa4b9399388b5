-- ===== src/Runner/Stdin/Lines.antt =====
-- What ReadLine makes of a text.
use kaigara.Base.{
  ℕ, zero, suc, ◌<◌, ◌≤◌, ◌≡◌, ◌≢◌, refl, Bool, true, false, ◌&&◌, Option, none, some, [], ◌∷◌,
  ◌++◌, Str, ◌==◌, if◌then◌else◌, length, All, arith, inl, inr, Bool-cases, ap, length-append, ◌∙◌,
  append_assoc,
}
use kaigara.Runner.Stdin.{
  Slice, found, full, ended, put_byte, read_slice, cut_cr, line_of, read_line,
}

abbrev starts_newline : Str → Bool
starts_newline [] = false
starts_newline (d ∷ s) = d == b'\n'

-- A text without the carriage returns that stand before a newline.
unfoldable pub without_cr : Str → Str
without_cr [] = []
without_cr (c ∷ s) =
    let rest = without_cr s in if c == b'\r' && starts_newline s then rest else c ∷ rest

-- Empty, or with a newline at its end.
unfoldable pub is_terminated : Str → Bool
is_terminated [] = true
is_terminated (c ∷ []) = c == b'\n'
is_terminated (c ∷ d ∷ s) = is_terminated (d ∷ s)

abbrev pub NoNewline : Str → Type 0
NoNewline = All (λ c. c ≢ b'\n')

is_terminated-append : (s t : Str) → is_terminated (s ++ t) ≡ true → is_terminated t ≡ true
unfolding is_terminated
is_terminated-append [] t h = h
is_terminated-append (c ∷ []) [] h = refl
is_terminated-append (c ∷ []) (d ∷ t) h = h
is_terminated-append (c ∷ d ∷ s) t h = is_terminated-append (d ∷ s) t h

not_terminated : (c : ℕ) (s : Str) → NoNewline (c ∷ s) → is_terminated (c ∷ s) ≡ false
unfolding is_terminated
not_terminated c [] h = ground arith
not_terminated c (d ∷ s) h = not_terminated d s h.1

without_cr_of_line : (line : Str) → NoNewline line → without_cr line ≡ line
unfolding without_cr
without_cr_of_line [] h = refl
without_cr_of_line (c ∷ []) h = ground arith
without_cr_of_line (c ∷ d ∷ s) h = ground (arith, without_cr_of_line (d ∷ s) h.1)

without_cr_of_found :
    (line rest : Str)
    → NoNewline line
    → without_cr (line ++ (b'\n' ∷ rest)) ≡ (cut_cr line).1 ++ (b'\n' ∷ without_cr rest)
unfolding without_cr cut_cr
without_cr_of_found [] rest h = ground arith
without_cr_of_found (c ∷ []) rest h = ground arith
without_cr_of_found (c ∷ d ∷ s) rest h = ground (arith, without_cr_of_found (d ∷ s) rest h.1)

-- A full buffer.
without_cr_of_full :
    (line rest : Str)
    → NoNewline line
    → (cut_cr line).0 ≡ false
    → without_cr (line ++ rest) ≡ line ++ without_cr rest
unfolding without_cr cut_cr
without_cr_of_full [] rest h e = refl
without_cr_of_full (c ∷ []) rest h e = ground arith
without_cr_of_full (c ∷ d ∷ s) rest h e = ground (arith, without_cr_of_full (d ∷ s) rest h.1 e)

without_cr_of_cut :
    (line rest : Str)
    → NoNewline line
    → (cut_cr line).0 ≡ true
    → (line ≡ (cut_cr line).1 ++ (b'\r' ∷ []))
      × (without_cr (line ++ rest) ≡ (cut_cr line).1 ++ without_cr (b'\r' ∷ rest))
unfolding without_cr cut_cr
without_cr_of_cut [] rest h e = ground arith
without_cr_of_cut (c ∷ []) rest h e = ground arith
without_cr_of_cut (c ∷ d ∷ s) rest h e =
    let (p, q) = without_cr_of_cut (d ∷ s) rest h.1 e in (ground arith, ground arith)

-- What each slice says of the text.
abbrev IsSlice : ℕ → Str → Slice → Type 0
IsSlice n s (found line rest) = (s ≡ line ++ (b'\n' ∷ rest)) × NoNewline line
IsSlice n s (full line rest) = (s ≡ line ++ rest) × (length line ≡ n) × NoNewline line
IsSlice n s (ended line) = (s ≡ line) × NoNewline line

put-IsSlice :
    (n c : ℕ) (s : Str) (slice : Slice)
    → c ≢ b'\n'
    → IsSlice n s slice
    → IsSlice (suc n) (c ∷ s) (put_byte c slice)
put-IsSlice n c s (found line rest) other h = (ap (λ t. c ∷ t) h.0, (other, h.1))
put-IsSlice n c s (full line rest) other (is, size, h) =
    (ap (λ t. c ∷ t) is, ap suc size, (other, h))
put-IsSlice n c s (ended line) other h = (ap (λ t. c ∷ t) h.0, (other, h.1))

read_slice-IsSlice : (n : ℕ) (s : Str) → IsSlice n s (read_slice n s)
unfolding read_slice
read_slice-IsSlice zero s = (refl, refl, tt)
read_slice-IsSlice (suc n) [] = (refl, tt)
read_slice-IsSlice (suc n) (c ∷ s) = elim (Bool-cases (c == b'\n')) [
  | inl e ↦ rw e (ground arith, tt)
  | inr e ↦ rw e (put-IsSlice n c s (read_slice n s) (ground arith) (read_slice-IsSlice n s))
]

-- What the relay writes after a line.
abbrev pub line_end : Bool → Str
line_end true = []
line_end false = b'\n' ∷ []

-- One ReadLine on a text: a part of the text without its carriage return, or the last line, which nothing
-- ends.
pub data IsRead (s : Str) : Option (Str × Bool × Str) → Type 0 where
  at_end : s ≡ [] → IsRead s none
  part :
      {line rest : Str} {is_prefix : Bool}
      → length rest < length s
      → without_cr s ≡ line ++ (line_end is_prefix ++ without_cr rest)
      → (is_terminated s ≡ true → is_terminated rest ≡ true)
      → IsRead s (some (line, is_prefix, rest))
  last : without_cr s ≡ s → is_terminated s ≡ false → length s ≢ 0 → IsRead s (some (s, false, []))

slice-IsRead :
    (size : ℕ) (s : Str) (slice : Slice)
    → 2 ≤ size
    → IsSlice size s slice
    → IsRead s (line_of slice)
unfolding line_of
slice-IsRead size s (found line rest) h (is, plain) = rw is (
    part {rest = rest} (ground (arith, length-append line (b'\n' ∷ rest)))
      (without_cr_of_found line rest plain)
      (λ e. is_terminated-append (b'\n' ∷ []) rest (is_terminated-append line (b'\n' ∷ rest) e)))
slice-IsRead size s (full line rest) h (is, fits, plain) = elim (Bool-cases (cut_cr line).0) [
  | inl e ↦
      let (same, kept) = without_cr_of_cut line rest plain e in
      let shorter = (cut_cr line).1 in
      let split : line ++ rest ≡ shorter ++ (b'\r' ∷ rest) =
        ap (λ t. t ++ rest) same ∙ append_assoc shorter (b'\r' ∷ []) rest in
      rw (is, e)
        (part (ground (arith, length-append line rest)) kept
          (λ h. is_terminated-append shorter (b'\r' ∷ rest) (rw (← split) h)))
  | inr e ↦
      rw (is, e)
        (part (ground (arith, length-append line rest)) (without_cr_of_full line rest plain e)
          (is_terminated-append line rest))
]
slice-IsRead size s (ended []) h (is, plain) = at_end is
slice-IsRead size s (ended (c ∷ line)) h (is, plain) =
    rw is (last (without_cr_of_line (c ∷ line) plain) (not_terminated c line plain) (ground arith))

pub read_line-IsRead : (size : ℕ) (s : Str) → 2 ≤ size → IsRead s (read_line size s)
unfolding read_line
read_line-IsRead size s h = slice-IsRead size s (read_slice size s) h (read_slice-IsSlice size s)
