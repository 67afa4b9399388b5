-- ===== src/Config/Kfile.antt =====
-- The keys that stand for files, of pkg/config/config.go: (?i)^KFILE_(.*)_(PATH|CONTENT)$
pub mod Laws
use kaigara.Base.{
  ℕ, ◌≡◌, refl, ap, ◌∙◌, sym, Bool, true, false, not, ◌&&◌, Option, none, some, List, [], ◌∷◌, ◌++◌,
  Str, bytes, to_upper, upper_byte, str_eq, str_eq_iff, ◌==◌, if◌then◌else◌, arith, ◌⊎◌, inl, inr,
  Option-cases, Bool-cases,
}

-- The rest of a text that begins with these capital letters, in any case.
unfoldable pub cut_prefix : Str → Str → Option Str
cut_prefix [] s = some s
cut_prefix (p ∷ ps) [] = none
cut_prefix (p ∷ ps) (c ∷ s) = let rest = cut_prefix ps s in if upper_byte c == p then rest else none

abbrev pub cons_some : ℕ → Option Str → Option Str
cons_some c none = none
cons_some c (some s) = some (c ∷ s)

-- What stands before a suffix, which is written in capital letters and matched in any case.
unfoldable pub cut_suffix : Str → Str → Option Str
cut_suffix suffix [] = none
cut_suffix suffix (c ∷ s) =
    let rest = cons_some c (cut_suffix suffix s) in
    if str_eq (to_upper (c ∷ s)) suffix then some [] else rest

-- `.` matches any byte but the newline.
unfoldable pub one_line : Str → Bool
one_line [] = true
one_line (c ∷ s) = not (c == 10) && one_line s

abbrev pub kfile_prefix : Str
kfile_prefix = bytes "KFILE_"

abbrev pub path_suffix : Str
path_suffix = bytes "_PATH"

abbrev pub content_suffix : Str
content_suffix = bytes "_CONTENT"

pub data FilePart : Type 0 where
  path_part content_part : FilePart

abbrev pub only_line : FilePart → Str → Option (Str × FilePart)
only_line part name = if one_line name then some (name, part) else none

-- The name and the part, `strings.ToUpper(m[1])` and `strings.ToUpper(m[2])`.
unfoldable pub match_rest : Str → Option (Str × FilePart)
match_rest rest = elim (cut_suffix path_suffix rest) [
  | some name ↦ only_line path_part name
  | none ↦ elim (cut_suffix content_suffix rest) [
    | some name ↦ only_line content_part name
    | none ↦ none
  ]
]

abbrev pub upper_name : Option (Str × FilePart) → Option (Str × FilePart)
upper_name none = none
upper_name (some (name, part)) = some (to_upper name, part)

unfoldable pub kfile_match : Str → Option (Str × FilePart)
unfolding match_rest
kfile_match key = elim (cut_prefix kfile_prefix key) [
  | none ↦ none
  | some rest ↦ upper_name (match_rest rest)
]

-- The capital letters of the key of a part of a file.
abbrev pub part_suffix : FilePart → Str
part_suffix path_part = path_suffix
part_suffix content_part = content_suffix

abbrev pub file_key : Str → FilePart → Str
file_key name part = kfile_prefix ++ (name ++ part_suffix part)
