-- ===== src/Config/CmdEnv/Effects.antt =====
-- The order in which the entries of a scope are visited, which Go leaves open, does not matter to
-- the files of the child, and to its variables only as an order.
use mathlib.Core.List.{Permᴰ}
use mathlib.Core.List.Permᴰ
use kaigara.Base.{
  ◌≡◌, ◌≢◌, refl, sym, ◌∙◌, Option, none, some, List, [], ◌∷◌, ◌++◌, Str, bytes, to_upper, str_eq,
  str_eq_iff, if◌then◌else◌, arith, append_assoc, inl, inr, Option-cases, All,
}
use kaigara.Base.Dict
use kaigara.Base.Dict.{Dict}
use kaigara.Value.{Value}
use kaigara.Config.Kfile.{FilePart, path_part, content_part, kfile_match, file_key}
use kaigara.Config.Kfile.Laws.{kfile_match-eq-some}
use kaigara.Config.CmdEnv.{
  File, Env, entry_text, file_of, set_part, put_part, add_entry, add_entries,
}

abbrev pub Entry : Type 0
Entry = Str × Option Value

-- The same files by name, and the same variables up to order.
pub record SameEnv (a b : Env) : Type 0 where
  pub vars : Permᴰ a.vars b.vars
  pub files : (name : Str) → Dict.lookup name a.files ≡ Dict.lookup name b.files

pub SameEnv-refl : (a : Env) → SameEnv a a
SameEnv-refl a = record { vars = Permᴰ.refl a.vars; files = λ name. refl }

pub SameEnv-trans : {a b c : Env} → SameEnv a b → SameEnv b c → SameEnv a c
SameEnv-trans p q = record {
  vars = Permᴰ.trans p.vars q.vars;
  files = λ name. p.files name ∙ q.files name;
}

-- What an entry does: nothing, a variable, or a part of a file.
data Effect : Type 0 where
  skip : Effect
  variable : Str → Effect
  part_of : Str → FilePart → Str → Effect

effect_text : Str → Option Str → Effect
effect_text key none = skip
effect_text key (some val) = elim (kfile_match key) [
  | none ↦ variable (to_upper key ++ (bytes "=" ++ val))
  | some (name, part) ↦ part_of name part val
]

effect : Entry → Effect
effect (key, value) = effect_text key (entry_text value)

perform : Effect → Env → Env
perform skip env = env
perform (variable v) env = record env { vars = env.vars ++ (v ∷ []) }
perform (part_of name part val) env = record env { files = put_part name part val env.files }

add_entry-eq-perform :
    (key : Str) (value : Option Value) (env : Env)
    → add_entry key value env ≡ perform (effect (key, value)) env
unfolding add_entry effect effect_text perform
add_entry-eq-perform key value env = ground arith

-- Two effects on different parts of files.
abbrev Apart : Effect → Effect → Type 0
Apart e f =
    (n m : Str) (p q : FilePart) (x y : Str)
    → e ≡ part_of n p x
    → f ≡ part_of m q y
    → file_key n p ≢ file_key m q

lookup-put_part :
    (name : Str) (part : FilePart) (val j : Str) (files : Dict File)
    → Dict.lookup j (put_part name part val files)
      ≡ (if str_eq name j then some (set_part part val (file_of j files)) else Dict.lookup j files)
unfolding put_part
lookup-put_part name part val j files = ground (
  arith,
  Dict.lookup-insert name j (set_part part val (file_of name files)) files,
  str_eq_iff name j,
)

file_of-cong :
    (j : Str) (files files' : Dict File)
    → Dict.lookup j files ≡ Dict.lookup j files'
    → file_of j files ≡ file_of j files'
unfolding file_of
file_of-cong j files files' h = ground arith

file_of-put_part :
    (name : Str) (part : FilePart) (val j : Str) (files : Dict File)
    → file_of j (put_part name part val files)
      ≡ (if str_eq name j then set_part part val (file_of j files) else file_of j files)
unfolding file_of
file_of-put_part name part val j files = ground (arith, lookup-put_part name part val j files)

set_part_comm :
    (p q : FilePart) (x y : Str) (f : File)
    → p ≢ q
    → set_part q y (set_part p x f) ≡ set_part p x (set_part q y f)
unfolding set_part
set_part_comm path_part path_part x y f h = absurd (h refl)
set_part_comm path_part content_part x y f h = refl
set_part_comm content_part path_part x y f h = refl
set_part_comm content_part content_part x y f h = absurd (h refl)

parts_differ : (n m : Str) (p q : FilePart) → file_key n p ≢ file_key m q → n ≡ m → p ≢ q
parts_differ n m p q h e e' = h (rw (e, e'))

lookup-put_parts :
    (n m : Str) (p q : FilePart) (x y j : Str) (files : Dict File)
    → file_key n p ≢ file_key m q
    → Dict.lookup j (put_part m q y (put_part n p x files))
      ≡ Dict.lookup j (put_part n p x (put_part m q y files))
lookup-put_parts n m p q x y j files h = ground (
  arith,
  lookup-put_part m q y j (put_part n p x files),
  lookup-put_part n p x j files,
  lookup-put_part n p x j (put_part m q y files),
  lookup-put_part m q y j files,
  file_of-put_part n p x j files,
  file_of-put_part m q y j files,
  str_eq_iff n j,
  str_eq_iff m j,
  set_part_comm p q x y (file_of j files),
  parts_differ n m p q h,
)

perform-SameEnv : (e : Effect) {a b : Env} → SameEnv a b → SameEnv (perform e a) (perform e b)
unfolding perform
perform-SameEnv skip h = h
perform-SameEnv (variable v) h = record {
  vars = Permᴰ.append_right (v ∷ []) h.vars;
  files = h.files;
}
perform-SameEnv (part_of name part val) {a} {b} h = record {
  vars = h.vars;
  files = λ j. ground (
    arith,
    lookup-put_part name part val j a.files,
    lookup-put_part name part val j b.files,
    file_of-cong j a.files b.files (h.files j),
    h.files j,
  );
}

perform_comm :
    (e f : Effect) (env : Env)
    → Apart e f
    → SameEnv (perform f (perform e env)) (perform e (perform f env))
unfolding perform
perform_comm skip f env h = SameEnv-refl (perform f env)
perform_comm (variable v) skip env h = SameEnv-refl _
perform_comm (variable v) (variable w) env h = record {
  vars =
      rw (append_assoc env.vars (v ∷ []) (w ∷ []), append_assoc env.vars (w ∷ []) (v ∷ []))
        (Permᴰ.append_left env.vars (Permᴰ.swap refl refl));
  files = λ j. refl;
}
perform_comm (variable v) (part_of n p x) env h = SameEnv-refl _
perform_comm (part_of n p x) skip env h = SameEnv-refl _
perform_comm (part_of n p x) (variable v) env h = SameEnv-refl _
perform_comm (part_of n p x) (part_of m q y) env h = record {
  vars = Permᴰ.refl env.vars;
  files = λ j. lookup-put_parts n m p q x y j env.files (h n m p q x y refl refl);
}

add_entry-SameEnv :
    (key : Str) (value : Option Value) {a b : Env}
    → SameEnv a b
    → SameEnv (add_entry key value a) (add_entry key value b)
add_entry-SameEnv key value {a} {b} h =
    rw (add_entry-eq-perform key value a, add_entry-eq-perform key value b)
      (perform-SameEnv (effect (key, value)) h)

pub add_entries-SameEnv :
    (es : List Entry) {a b : Env} → SameEnv a b → SameEnv (add_entries es a) (add_entries es b)
unfolding add_entries
add_entries-SameEnv [] h = h
add_entries-SameEnv ((k, v) ∷ es) h = add_entries-SameEnv es (add_entry-SameEnv k v h)

-- Two keys that differ beyond letter case.
abbrev pub DifferentKeys : Entry → Entry → Type 0
DifferentKeys a b = to_upper a.0 ≢ to_upper b.0

-- No two keys are the same in capital letters.
abbrev pub DistinctKeys : List Entry → Type 0
DistinctKeys [] = Unit
DistinctKeys (e ∷ es) = All (DifferentKeys e) es × DistinctKeys es

effect_text-eq-part_of :
    (key : Str) (o : Option Str) (name : Str) (part : FilePart) (val : Str)
    → effect_text key o ≡ part_of name part val
    → to_upper key ≡ file_key name part
unfolding effect_text
effect_text-eq-part_of key none name part val h = ground arith
effect_text-eq-part_of key (some x) name part val h = elim (Option-cases (kfile_match key)) [
  | inl e ↦ ground arith
  | inr ((n, p), e) ↦ ground (arith, kfile_match-eq-some key n p e)
]

effect-Apart : (a b : Entry) → DifferentKeys a b → Apart (effect a) (effect b)
unfolding effect
effect-Apart (k, v) (j, w) h n m p q x y e f same = h (
    effect_text-eq-part_of k (entry_text v) n p x e
    ∙ same
    ∙ sym (effect_text-eq-part_of j (entry_text w) m q y f))

pub add_entry_comm :
    (a b : Entry) (env : Env)
    → DifferentKeys a b
    → SameEnv
        (add_entry b.0 b.1 (add_entry a.0 a.1 env))
        (add_entry a.0 a.1 (add_entry b.0 b.1 env))
add_entry_comm (k, v) (j, w) env h =
    simp add_entry-eq-perform
      (perform_comm (effect (k, v)) (effect (j, w)) env (effect-Apart (k, v) (j, w) h))
