-- ===== src/Config/CmdEnv/Order.antt =====
-- The entries of a scope in any order give the same environment.
use mathlib.Core.List.{Permᴰ}
use kaigara.Base.{sym, List, ◌∷◌, All, subst, Option}
use kaigara.Base.Dict.{Dict}
use kaigara.Value.{Value}
use kaigara.Config.CmdEnv.{Env, add_entry, add_entries}
use kaigara.Config.CmdEnv.Effects.{
  Entry, SameEnv, SameEnv-refl, SameEnv-trans, DifferentKeys, DistinctKeys, add_entries-SameEnv,
  add_entry_comm,
}

All-Permᴰ : {A : Type 0} (P : A → Type 0) {xs ys : List A} → Permᴰ xs ys → All P xs → All P ys
All-Permᴰ P Permᴰ.nil h = tt
All-Permᴰ P (Permᴰ.cons e p) h = (rw (← e) h.0, All-Permᴰ P p h.1)
All-Permᴰ P (Permᴰ.swap e f) h = (rw (← f) h.1.0, (rw (← e) h.0, h.1.1))
All-Permᴰ P (Permᴰ.trans p q) h = All-Permᴰ P q (All-Permᴰ P p h)

DistinctKeys-Permᴰ : {es fs : List Entry} → Permᴰ es fs → DistinctKeys es → DistinctKeys fs
DistinctKeys-Permᴰ Permᴰ.nil h = tt
DistinctKeys-Permᴰ (Permᴰ.cons {b = b} e p) h =
    (All-Permᴰ (DifferentKeys b) p (rw (← e) h.0), DistinctKeys-Permᴰ p h.1)
DistinctKeys-Permᴰ (Permᴰ.swap {b = b} {b' = b'} {l = l} e f) h =
    subst (λ x. DistinctKeys (x ∷ b' ∷ l)) f
      (subst (λ y. DistinctKeys (b ∷ y ∷ l)) e ((λ p. h.0.0 (sym p), h.1.0), (h.0.1, h.1.1)))
DistinctKeys-Permᴰ (Permᴰ.trans p q) h = DistinctKeys-Permᴰ q (DistinctKeys-Permᴰ p h)

-- Go visits the entries of a map in an order of its own. Where no two keys of a scope are the same in
-- capital letters, any two orders give the child the same files and, up to order, the same
-- variables.
pub add_entries-Perm :
    {es fs : Dict (Option Value)} (env : Env)
    → Permᴰ es fs
    → DistinctKeys es
    → SameEnv (add_entries es env) (add_entries fs env)
unfolding add_entries
add_entries-Perm env Permᴰ.nil h = SameEnv-refl env
add_entries-Perm env (Permᴰ.cons {a = (k, v)} {l₁ = es} {l₂ = fs} e p) h =
    rw (← e) (add_entries-Perm (add_entry k v env) p h.1)
add_entries-Perm env (Permᴰ.swap {a = (k, v)} {b = (j, w)} {l = es} e f) h =
    rw (← e, ← f) (add_entries-SameEnv es (add_entry_comm (k, v) (j, w) env h.0.0))
add_entries-Perm env (Permᴰ.trans p q) h =
    SameEnv-trans (add_entries-Perm env p h) (add_entries-Perm env q (DistinctKeys-Permᴰ p h))
