-- ===== src/Storage/Memory.antt =====
-- The nested maps in which the storage services keep what they have loaded:
-- application, then scope. A nil map and one that was never made are the missing entry.
use kaigara.Base.{◌≡◌, Option, none, some, [], Str, arith, ◌&&◌}
use kaigara.Base.{str_eq, str_eq_iff, str_eq_refl, if◌then◌else◌}
use kaigara.Base.Dict
use kaigara.Base.Dict.{Dict}

module _ {ℓ} {V : Type ℓ} where
  -- m[app], which is nil if it was never made
  unfoldable pub app_of : Str → Dict (Dict V) → Dict V
  app_of app m = elim (Dict.lookup app m) [ none ↦ [] | some scopes ↦ scopes ]

  -- v, ok := m[app][scope]
  unfoldable pub scope_of : Str → Str → Dict (Dict V) → Option V
  unfolding app_of
  scope_of app scope m = Dict.lookup scope (app_of app m)

  -- m[app][scope] = v, once m[app] is made
  unfoldable pub set_scope : Str → Str → V → Dict (Dict V) → Dict (Dict V)
  unfolding app_of
  set_scope app scope v m = Dict.insert app (Dict.insert scope v (app_of app m)) m

  pub scope_of-set_scope :
      (app scope app' scope' : Str) (v : V) (m : Dict (Dict V))
      → scope_of app' scope' (set_scope app scope v m)
        ≡ (if str_eq app app' && str_eq scope scope' then some v else scope_of app' scope' m)
  unfolding scope_of set_scope
  scope_of-set_scope app scope app' scope' v m = ground (
    arith,
    Dict.lookup-insert app app' (Dict.insert scope v (app_of app m)) m,
    Dict.lookup-insert scope scope' v (app_of app m),
    str_eq_iff app app',
  )

  pub scope_of-set_scope_self :
      (app scope : Str) (v : V) (m : Dict (Dict V))
      → scope_of app scope (set_scope app scope v m) ≡ some v
  scope_of-set_scope_self app scope v m =
      ground (arith, scope_of-set_scope app scope app scope v m, str_eq_refl app, str_eq_refl scope)
