-- ===== src/Runner/Watch.antt =====
-- watchSecrets of cmd/kaigara/kaigara.go: the poll for new versions of the secrets.
pub mod Laws
pub mod Noticed
use kaigara.Base.{
  ℕ, zero, suc, Bool, true, false, Option, none, some, List, [], ◌∷◌, ◌++◌, Str, bytes, str_eq,
  if◌then◌else◌,
}
use kaigara.Base.Exec.{Exec, Outcome, ok, err, panic, pure, continue, ◌>>=◌}
use kaigara.Base.Int64.{ℤ, int_eq}
use kaigara.Storage.Interface.{Storage}

-- The message of a restart: the scope whose version has moved on, and both versions.
pub record Change : Type 0 where
  pub app : Str
  pub scope : Str
  pub current : ℤ
  pub latest : ℤ

-- The applications to watch, by the value of KAIGARA_IGNORE_GLOBAL.
unfoldable pub watched_apps : Option Str → List Str → List Str
watched_apps none apps = apps ++ (bytes "global" ∷ [])
watched_apps (some ignore) apps =
    if str_eq ignore (bytes "true") then apps else apps ++ (bytes "global" ∷ [])

-- `if err != nil { break }`: the other scopes of the application are left for the next tick.
abbrev pub or_break {ℓ} : {S A B : Type ℓ} → Exec S A → (A → Exec S (Option B)) → Exec S (Option B)
or_break m f s =
    let (r, t) = m s in elim r [ ok a ↦ f a t | err e ↦ (ok none, t) | panic p ↦ (panic p, t) ]

module _ (S : Storage) where
  unfoldable pub check_scope :
      Str → Str → Exec S.State (Option Change) → Exec S.State (Option Change)
  check_scope app scope rest = or_break (S.get_current_version app scope) λ current.
      or_break (S.get_latest_version app scope) λ latest.
        if int_eq current latest
        then rest
        else pure (some (record { app = app; scope = scope; current = current; latest = latest }))

  unfoldable pub check_scopes : Str → List Str → Exec S.State (Option Change)
  check_scopes app [] = pure none
  check_scopes app (scope ∷ scopes) = check_scope app scope (check_scopes app scopes)

  abbrev or_else : Option Change → Exec S.State (Option Change) → Exec S.State (Option Change)
  or_else none rest = rest
  or_else (some c) rest = pure (some c)

  unfoldable pub check_apps : List Str → List Str → Exec S.State (Option Change)
  check_apps [] scopes = pure none
  check_apps (app ∷ apps) scopes = do
    found ← check_scopes app scopes
    or_else found (check_apps apps scopes)

  -- The ticks until `done` is closed: none means that no change was seen before.
  unfoldable pub watch_ticks : ℕ → List Str → List Str → Exec S.State (Option Change)
  watch_ticks zero apps scopes = pure none
  watch_ticks (suc ticks) apps scopes = do
    found ← check_apps apps scopes
    or_else found (watch_ticks ticks apps scopes)

  unfoldable pub watch_secrets : Option Str → ℕ → List Str → List Str → Exec S.State (Option Change)
  unfolding watched_apps watch_ticks
  watch_secrets ignore ticks apps scopes = watch_ticks ticks (watched_apps ignore apps) scopes
