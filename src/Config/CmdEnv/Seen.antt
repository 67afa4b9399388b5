-- ===== src/Config/CmdEnv/Seen.antt =====
-- What the child sees of its environment: where c.Env has a name twice, os/exec passes on the last value.
use kaigara.Base.{
  ◌≡◌, refl, sym, ap, ◌∙◌, Option, none, some, List, [], ◌∷◌, ◌++◌, Str, ◌==◌, if◌then◌else◌, arith,
  Option-cases, inl, inr, All, has_prefix, false,
}
use kaigara.Base.Dict.{Dict}
use kaigara.Value.{Value}
use kaigara.Config.Kfile.{kfile_match}
use kaigara.Config.CmdEnv.{
  Env, inherited, kaigara_prefix, entry_text, put_entry, add_entry, add_entries,
}
use kaigara.Config.CmdEnv.Provides.{variable}

-- The value in `name=value`, for this name.
unfoldable pub value_of : Str → Str → Option Str
value_of name [] = none
value_of [] (c ∷ v) = if c == b'=' then some v else none
value_of (n ∷ name) (c ∷ v) = let rest = value_of name v in if n == c then rest else none

abbrev pub or_else : Option Str → Option Str → Option Str
or_else none old = old
or_else (some v) old = some v

-- os.Getenv in the child, of a name without `=`; it finds no other names, which are found here too.
unfoldable pub seen : Str → List Str → Option Str
seen name [] = none
seen name (v ∷ vars) = or_else (seen name vars) (value_of name v)

pub or_else_assoc : (a b c : Option Str) → or_else (or_else a b) c ≡ or_else a (or_else b c)
or_else_assoc none b c = refl
or_else_assoc (some a) b c = refl

or_else-none : (a : Option Str) → or_else a none ≡ a
or_else-none none = refl
or_else-none (some a) = refl

pub seen-append :
    (name : Str) (vs ws : List Str) → seen name (vs ++ ws) ≡ or_else (seen name ws) (seen name vs)
unfolding seen
seen-append name [] ws = sym (or_else-none (seen name ws))
seen-append name (v ∷ vs) ws =
    ap (λ x. or_else x (value_of name v)) (seen-append name vs ws)
    ∙ or_else_assoc (seen name ws) (seen name vs) (value_of name v)

-- What an entry says of a variable: nothing, if it has no text or is a part of a file.
abbrev pub entry_says : Str → Str → Option Value → Option Str
entry_says name key value = elim (entry_text value) [
  | none ↦ none
  | some val ↦ elim (kfile_match key) [ none ↦ value_of name (variable key val) | some _ ↦ none ]
]

-- What a scope says of it: what the last of its entries that says anything does.
unfoldable pub scope_says : Str → Dict (Option Value) → Option Str
scope_says name [] = none
scope_says name ((k, v) ∷ secrets) = or_else (scope_says name secrets) (entry_says name k v)

-- And several scopes, one after the other.
unfoldable pub scopes_say : Str → List (Dict (Option Value)) → Option Str
scopes_say name [] = none
scopes_say name (secrets ∷ more) = or_else (scopes_say name more) (scope_says name secrets)

seen-add_entry :
    (name key : Str) (value : Option Value) (env : Env)
    → seen name (add_entry key value env).vars
      ≡ or_else (entry_says name key value) (seen name env.vars)
unfolding add_entry put_entry value_of seen
seen-add_entry name key value env = elim (Option-cases (entry_text value)) [
  | inl e ↦ rw (e, add_entry, entry_says) refl
  | inr (val, e) ↦ elim (Option-cases (kfile_match key)) [
    | inl f ↦
        rw (e, f, add_entry, put_entry, entry_says)
          (seen-append name env.vars (variable key val ∷ []))
    | inr (m, f) ↦ rw (e, f, add_entry, put_entry, entry_says) refl
  ]
]

pub seen-add_entries :
    (name : Str) (secrets : Dict (Option Value)) (env : Env)
    → seen name (add_entries secrets env).vars
      ≡ or_else (scope_says name secrets) (seen name env.vars)
unfolding add_entries scope_says
seen-add_entries name [] env = refl
seen-add_entries name ((k, v) ∷ secrets) env =
    seen-add_entries name secrets (add_entry k v env)
    ∙ ap (or_else (scope_says name secrets)) (seen-add_entry name k v env)
    ∙ sym (or_else_assoc (scope_says name secrets) (entry_says name k v) (seen name env.vars))

pub scopes_say-append :
    (name : Str) (xs ys : List (Dict (Option Value)))
    → scopes_say name (xs ++ ys) ≡ or_else (scopes_say name ys) (scopes_say name xs)
unfolding scopes_say
scopes_say-append name [] ys = sym (or_else-none (scopes_say name ys))
scopes_say-append name (x ∷ xs) ys =
    ap (λ r. or_else r (scope_says name x)) (scopes_say-append name xs ys)
    ∙ or_else_assoc (scopes_say name ys) (scopes_say name xs) (scope_says name x)

-- What `name=value` begins with, the name does, if there is no `=` in that.
value_of-has_prefix :
    (p name v x : Str)
    → All (λ c. (c == b'=') ≡ false) p
    → value_of name v ≡ some x
    → has_prefix v p ≡ has_prefix name p
unfolding value_of has_prefix
value_of-has_prefix [] name v x free h = refl
value_of-has_prefix (d ∷ p) name [] x free h = ground arith
value_of-has_prefix (d ∷ p) [] (c ∷ v) x free h = ground arith
value_of-has_prefix (d ∷ p) (n ∷ name) (c ∷ v) x (is, free) h =
    ground (arith, value_of-has_prefix p name v x free)

pub seen-inherited :
    (name : Str) (current : List Str)
    → seen name (inherited current)
      ≡ (if has_prefix name kaigara_prefix then none else seen name current)
unfolding seen inherited
seen-inherited name [] = ground arith
seen-inherited name (v ∷ vs) = elim (Option-cases (value_of name v)) [
  | inl e ↦ ground (arith, seen-inherited name vs)
  | inr (x, e) ↦
      ground (
        arith,
        seen-inherited name vs,
        value_of-has_prefix kaigara_prefix name v x (ground arith) e,
      )
]
