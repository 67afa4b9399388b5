-- ===== src/Commands/Kaienv/Lookup.antt =====
-- Which variables kaienv finds.
use kaigara.Base.{
  bytes, ℕ, ◌≡◌, ◌≢◌, refl, ap, ◌∙◌, sym, Option, none, Str, List, [], ◌∷◌, All, arith, str_eq,
  str_eq_iff, lower_byte, to_lower, Bool-cases, inl, inr, ◌⊎◌,
}
use kaigara.Base.Dict
use kaigara.Base.Dict.{Dict}
use kaigara.Base.Exec.{ok, err, no_such_key}
use kaigara.Value.{Value}
use kaigara.Storage.Interface.{Storage}
use kaigara.Commands.Kaienv.{read_all_env, kaienv_run}

lower_byte_idem : (c : ℕ) → lower_byte (lower_byte c) ≡ lower_byte c
unfolding lower_byte
lower_byte_idem c = ground arith

to_lower_idem : (s : Str) → to_lower (to_lower s) ≡ to_lower s
unfolding to_lower
to_lower_idem [] = refl
to_lower_idem (c ∷ s) = cc (lower_byte_idem c, to_lower_idem s)

-- A key that is not found by its own spelling.
abbrev pub IsHidden : Str → Type 0
IsHidden k = (k ≡ bytes "version") ⊎ (to_lower k ≢ k)

lookup-to_lower :
    (variable : Str) (env : Dict (Option Value))
    → to_lower variable ≢ bytes "version"
    → All IsHidden (Dict.keys env)
    → Dict.lookup (to_lower variable) env ≡ none
unfolding Dict.lookup Dict.keys
lookup-to_lower variable [] other h = refl
lookup-to_lower variable ((k, v) ∷ env) other h = elim (Bool-cases (str_eq k (to_lower variable))) [
  | inl e ↦
      let same : k ≡ to_lower variable = (str_eq_iff k (to_lower variable)).0 e in
      elim h.0 [
        | inl is ↦ absurd (other (sym same ∙ is))
        | inr capital ↦ absurd (capital (ap to_lower same ∙ to_lower_idem variable ∙ sym same))
      ]
  | inr e ↦ rw e (lookup-to_lower variable env other h.1)
]

-- Where every key that was read, but for "version", has a capital letter, kaienv finds no other variable:
-- it looks the variable up in small letters, however it is spelt, and fails.
pub kaienv_run_capitals :
    (S : Storage) (sprint : Option Value → Str) (app_names scopes variable : Str)
    (params : List Str) (env : Dict (Option Value)) (s : S.State)
    → (read_all_env S app_names scopes s).0 ≡ ok env
    → All IsHidden (Dict.keys env)
    → to_lower variable ≢ bytes "version"
    → (kaienv_run S sprint app_names scopes (variable ∷ params) s).0 ≡ err (no_such_key variable)
unfolding kaienv_run
kaienv_run_capitals S sprint app_names scopes variable params env s h capitals other =
    rw (h, lookup-to_lower variable env other capitals)
