-- ===== src/Config/Kfile/Laws.antt =====
-- Which keys stand for files, both ways, and for which part of which file.
use kaigara.Base.{
  ℕ, ◌≡◌, ◌≢◌, refl, ap, ◌∙◌, sym, true, false, some, [], ◌∷◌, ◌++◌, Str, bytes, to_upper,
  upper_byte, str_eq, str_eq_iff, arith, ◌↔◌, inl, inr, Option-cases, length, length-append,
}
use kaigara.Config.Kfile.{
  cut_prefix, cut_suffix, one_line, kfile_prefix, path_suffix, content_suffix, FilePart, path_part,
  content_part, only_line, match_rest, kfile_match, upper_name, part_suffix, file_key,
}

cut_prefix-eq-some : (p s rest : Str) → cut_prefix p s ≡ some rest → to_upper s ≡ p ++ to_upper rest
unfolding cut_prefix to_upper
cut_prefix-eq-some [] s rest h = ground arith
cut_prefix-eq-some (p ∷ ps) [] rest h = ground arith
cut_prefix-eq-some (p ∷ ps) (c ∷ s) rest h = ground (arith, cut_prefix-eq-some ps s rest)

cut_suffix-eq-some :
    (suffix s name : Str) → cut_suffix suffix s ≡ some name → to_upper s ≡ to_upper name ++ suffix
unfolding cut_suffix to_upper
cut_suffix-eq-some suffix [] name h = ground arith
cut_suffix-eq-some suffix (c ∷ s) [] h = ground (arith, str_eq_iff (to_upper (c ∷ s)) suffix)
cut_suffix-eq-some suffix (c ∷ s) (d ∷ name) h =
    ground (arith, str_eq_iff (to_upper (c ∷ s)) suffix, cut_suffix-eq-some suffix s name)

only_line-eq-some :
    (part part' : FilePart) (s name : Str)
    → only_line part s ≡ some (name, part')
    → (s ≡ name) × (part ≡ part')
only_line-eq-some part part' s name h = ground arith

match_rest-eq-some :
    (rest name : Str) (part : FilePart)
    → match_rest rest ≡ some (name, part)
    → to_upper rest ≡ to_upper name ++ part_suffix part
unfolding match_rest
match_rest-eq-some rest name part h = elim (Option-cases (cut_suffix path_suffix rest)) [
  | inr (n, e) ↦
      ground
        (arith, only_line-eq-some path_part part n name, cut_suffix-eq-some path_suffix rest n e)
  | inl e ↦ elim (Option-cases (cut_suffix content_suffix rest)) [
    | inr (n, e') ↦ ground (
      arith,
      only_line-eq-some content_part part n name,
      cut_suffix-eq-some content_suffix rest n e',
    )
    | inl e' ↦ ground arith
  ]
]

-- A key that stands for a part of a file is, in capital letters, KFILE_, the name and the suffix.
pub kfile_match-eq-some :
    (key name : Str) (part : FilePart)
    → kfile_match key ≡ some (name, part)
    → to_upper key ≡ file_key name part
unfolding kfile_match
kfile_match-eq-some key name part h = elim (Option-cases (cut_prefix kfile_prefix key)) [
  | inl e ↦ ground arith
  | inr (rest, e) ↦ elim (Option-cases (match_rest rest)) [
    | inl e' ↦ ground arith
    | inr ((n, p), e') ↦
        ground (arith, cut_prefix-eq-some kfile_prefix key rest e, match_rest-eq-some rest n p e')
  ]
]

cut_prefix_of_upper :
    (p s u : Str)
    → to_upper s ≡ p ++ u
    → (rest : Str) × (cut_prefix p s ≡ some rest) × (to_upper rest ≡ u)
unfolding cut_prefix to_upper
cut_prefix_of_upper [] s u h = (s, refl, h)
cut_prefix_of_upper (p ∷ ps) [] u h = ground arith
cut_prefix_of_upper (p ∷ ps) (c ∷ s) u h =
    let (rest, e, same) = cut_prefix_of_upper ps s u (ground arith) in (rest, ground arith, same)

longer : (x : ℕ) (u t : Str) → x ∷ (u ++ t) ≢ t
longer x u t p = omega (arith, ap length p, length-append u t)

str_eq_of_ne : (s t : Str) → s ≢ t → str_eq s t ≡ false
str_eq_of_ne s t h = ground (arith, str_eq_iff s t)

cut_suffix_of_upper :
    (d : ℕ) (suffix s u : Str)
    → to_upper s ≡ u ++ (d ∷ suffix)
    → (name : Str) × (cut_suffix (d ∷ suffix) s ≡ some name) × (to_upper name ≡ u)
unfolding cut_suffix to_upper
cut_suffix_of_upper d suffix [] [] h = ground arith
cut_suffix_of_upper d suffix [] (x ∷ u) h = ground arith
cut_suffix_of_upper d suffix (c ∷ s) [] h =
    ([], ground (arith, str_eq_iff (to_upper (c ∷ s)) (d ∷ suffix)), refl)
cut_suffix_of_upper d suffix (c ∷ s) (x ∷ u) h =
    let (name, e, same) = cut_suffix_of_upper d suffix s u (ground arith) in
    let differ : str_eq (to_upper (c ∷ s)) (d ∷ suffix) ≡ false =
      str_eq_of_ne _ _ (λ p. longer x u (d ∷ suffix) (sym h ∙ p)) in
    (c ∷ name, ground arith, ground arith)

one_line-to_upper : (s : Str) → one_line (to_upper s) ≡ one_line s
unfolding one_line to_upper upper_byte
one_line-to_upper [] = refl
one_line-to_upper (c ∷ s) = ground (arith, one_line-to_upper s)

abbrev last : ℕ → Str → ℕ
last d [] = d
last d (c ∷ s) = last c s

last-append : (d c : ℕ) (s t : Str) → last d (s ++ (c ∷ t)) ≡ last c t
last-append d c [] t = refl
last-append d c (e ∷ s) t = last-append e c s t

-- No text ends both in _PATH and in _CONTENT.
suffixes_differ : (s t : Str) → s ++ path_suffix ≢ t ++ content_suffix
suffixes_differ s t p = omega (
  arith,
  ap (last 0) p,
  last-append 0 b'_' s (bytes "PATH"),
  last-append 0 b'_' t (bytes "CONTENT"),
)

match_rest_of_upper :
    (rest name : Str) (part : FilePart)
    → to_upper rest ≡ name ++ part_suffix part
    → one_line name ≡ true
    → upper_name (match_rest rest) ≡ some (name, part)
unfolding match_rest
match_rest_of_upper rest name path_part h o =
    let (n, e, same) = cut_suffix_of_upper b'_' (bytes "PATH") rest name h in
    ground (arith, one_line-to_upper n)
match_rest_of_upper rest name content_part h o =
    let (n, e, same) = cut_suffix_of_upper b'_' (bytes "CONTENT") rest name h in
    elim (Option-cases (cut_suffix path_suffix rest)) [
      | inl missing ↦ ground (arith, one_line-to_upper n)
      | inr (m, found) ↦ absurd (
          suffixes_differ (to_upper m) name (sym (cut_suffix-eq-some path_suffix rest m found) ∙ h))
    ]

pub kfile_match_of_upper :
    (key name : Str) (part : FilePart)
    → to_upper key ≡ file_key name part
    → one_line name ≡ true
    → kfile_match key ≡ some (name, part)
unfolding kfile_match
kfile_match_of_upper key name part h o =
    let (rest, e, same) = cut_prefix_of_upper kfile_prefix key (name ++ part_suffix part) h in
    ground (arith, match_rest_of_upper rest name part same o)

-- A key stands for a part of the file of a name on one line exactly when, in capital letters, it is
-- KFILE_, that name, and the suffix of the part.
pub kfile_match_iff :
    (key name : Str) (part : FilePart)
    → one_line name ≡ true
    → (kfile_match key ≡ some (name, part)) ↔ (to_upper key ≡ file_key name part)
kfile_match_iff key name part o =
    (kfile_match-eq-some key name part, λ h. kfile_match_of_upper key name part h o)
