-- ===== src/Base/Int64.antt =====
-- Go's int64: integers from -2^63 to 2^63 - 1.
use Prim.Native.Nat.{ℕ, zero, suc, ◌+◌, ◌*◌, ◌-◌, ◌^◌}
use mathlib.Core.Bool.{Bool, false, ◌&&◌}
use mathlib.Core.Option.{Option, none, some}
use mathlib.Core.List.{[], ◌∷◌, ◌++◌}
use mathlib.Core.Path.{◌≡◌, refl, ap}
use Prim.Native.Nat.{◌≤◌}
use native.Mathlib.Omega.{arith}
use kaigara.Base.Text.{Str}
use kaigara.Base.Tests.{leb, ◌==◌, if◌then◌else◌}

-- `negsuc n` is -(n + 1).
pub data ℤ : Type 0 where
  pos : ℕ → ℤ
  negsuc : ℕ → ℤ

abbrev pub max_int64 : ℕ
max_int64 = 2 ^ 63 - 1

-- n + 1, which wraps around at the largest int64.
unfoldable pub add_one : ℤ → ℤ
add_one (pos n) = if n == max_int64 then negsuc max_int64 else pos (n + 1)
add_one (negsuc zero) = pos 0
add_one (negsuc (suc n)) = negsuc n

unfoldable pub int_eq : ℤ → ℤ → Bool
int_eq (pos m) (pos n) = m == n
int_eq (pos m) (negsuc n) = false
int_eq (negsuc m) (pos n) = false
int_eq (negsuc m) (negsuc n) = m == n

-- strconv.ParseInt(s, 10, 64), which json.Number.Int64 calls; none is an error.
unfoldable pub parse_digits : ℕ → Str → Option ℕ
parse_digits n [] = some n
parse_digits n (c ∷ s) =
    let rest = parse_digits (n * 10 + (c - b'0')) s in
    if leb b'0' c && leb c b'9' then rest else none

unfoldable pub parse_magnitude : Str → Option ℕ
unfolding parse_digits
parse_magnitude [] = none
parse_magnitude (c ∷ s) = parse_digits 0 (c ∷ s)

abbrev positive : Option ℕ → Option ℤ
positive none = none
positive (some n) = if leb n max_int64 then some (pos n) else none

abbrev negative : Option ℕ → Option ℤ
negative none = none
negative (some zero) = some (pos 0)
negative (some (suc n)) = if leb n max_int64 then some (negsuc n) else none

unfoldable pub parse_int64 : Str → Option ℤ
unfolding parse_magnitude
parse_int64 [] = none
parse_int64 (c ∷ s) =
    if c == b'-'
    then negative (parse_magnitude s)
    else if c == b'+'
    then positive (parse_magnitude s)
    else positive (parse_magnitude (c ∷ s))

-- The number that a text of decimal digits stands for.
pub data Decimal : ℕ → Str → Type 0 where
  digit : (d : ℕ) → d ≤ 9 → Decimal d ((b'0' + d) ∷ [])
  more :
      {n : ℕ} {s : Str}
      → Decimal n s
      → (d : ℕ) → d ≤ 9
      → Decimal (n * 10 + d) (s ++ ((b'0' + d) ∷ []))

parse_digits_of_digit : (n d : ℕ) → d ≤ 9 → parse_digits n ((b'0' + d) ∷ []) ≡ some (n * 10 + d)
unfolding parse_digits
parse_digits_of_digit n d h = ground arith

parse_digits-append :
    (n m d : ℕ) (s : Str)
    → d ≤ 9
    → parse_digits n s ≡ some m
    → parse_digits n (s ++ ((b'0' + d) ∷ [])) ≡ some (m * 10 + d)
unfolding parse_digits
parse_digits-append n m d [] h e =
    let is : n ≡ m = ground arith in rw (← is) (parse_digits_of_digit n d h)
parse_digits-append n m d (c ∷ s) h e =
    ground (arith, parse_digits-append (n * 10 + (c - b'0')) m d s h)

-- A first digit, and what is parsed.
Decimal_lem :
    {n : ℕ} {s : Str}
    → Decimal n s
    → (c : ℕ) × (rest : Str) × (s ≡ c ∷ rest) × (b'0' ≤ c) × (parse_digits 0 s ≡ some n)
Decimal_lem (digit d h) =
    (b'0' + d, [], refl, omega arith, ground (arith, parse_digits_of_digit 0 d h))
Decimal_lem (more {n} {s} decimal d h) =
    let (c, rest, is, first, parsed) = Decimal_lem decimal in
    (
      c,
      rest ++ ((b'0' + d) ∷ []),
      ap (λ t. t ++ ((b'0' + d) ∷ [])) is,
      first,
      parse_digits-append 0 n d s h parsed,
    )

-- A number in decimal digits is parsed to itself where int64 holds it, and is an error beyond.
pub parse_int64-Decimal :
    {n : ℕ} {s : Str}
    → Decimal n s
    → parse_int64 s ≡ (if leb n max_int64 then some (pos n) else none)
unfolding parse_int64 parse_magnitude
parse_int64-Decimal {n} decimal =
    let (c, rest, is, first, parsed) = Decimal_lem decimal in
    let parsed' : parse_digits 0 (c ∷ rest) ≡ some n = rw is at parsed in
    rw is (ground (arith, parsed'))
