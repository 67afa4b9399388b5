-- ===== src/Runner/Watch/Laws.antt =====
-- What the poll reports: changes that it has seen, and no others.
use kaigara.Base.{
  ℕ, zero, suc, ◌≡◌, ◌⊎◌, inl, inr, refl, ap, true, false, Option, none, some, List, [], ◌∷◌, Str,
  arith, if◌then◌else◌, Bool-cases, Option-cases, subst, All, Among,
}
use kaigara.Base.Exec.{Exec, Outcome-cases, ok}
use kaigara.Base.Int64.{ℤ, int_eq}
use kaigara.Storage.Interface.{Storage}
use kaigara.Runner.Watch.{
  Change, watched_apps, check_scope, check_scopes, check_apps, watch_ticks, watch_secrets,
}

-- A scope whose versions differ stands behind one whose versions agree.
further :
    (scope x : Str) (scopes : List Str) (current latest : Str → ℤ)
    → Among scope (x ∷ scopes)
    → int_eq (current scope) (latest scope) ≡ false
    → int_eq (current x) (latest x) ≡ true
    → Among scope scopes
further scope x scopes current latest (inl e) d same =
    absurd (ground (arith, ap current e, ap latest e))
further scope x scopes current latest (inr m) d same = m

module _ (S : Storage) where
  -- The storage has returned these two versions, which differ.
  pub record Seen (c : Change) : Type 0 where
    pub at_current : S.State
    pub at_latest : S.State
    pub returned_current : (S.get_current_version c.app c.scope at_current).0 ≡ ok c.current
    pub returned_latest : (S.get_latest_version c.app c.scope at_latest).0 ≡ ok c.latest
    pub differ : int_eq c.current c.latest ≡ false

  check_scope_sound :
      (app scope : Str) (rest : Exec S.State (Option Change)) (s : S.State) (c : Change)
      → (check_scope S app scope rest s).0 ≡ ok (some c)
      → ((c.app ≡ app) × (c.scope ≡ scope) × Seen c) ⊎ ((t : S.State) × ((rest t).0 ≡ ok (some c)))
  unfolding check_scope
  check_scope_sound app scope rest s c h =
      let r = S.get_current_version app scope s in
      elim (Outcome-cases r.0) [
        | inr failed ↦ ground arith
        | inl (current, e) ↦
            let q = S.get_latest_version app scope r.1 in
            elim (Outcome-cases q.0) [
              | inr failed ↦ ground arith
              | inl (latest, f) ↦ elim (Bool-cases (int_eq current latest)) [
                | inl same ↦ inr (q.1, ground arith)
                | inr differ ↦
                    let hit : Change = record {
                      app = app;
                      scope = scope;
                      current = current;
                      latest = latest;
                    } in
                    let found : hit ≡ c = ground arith in
                    let seen : Seen hit = record {
                      at_current = s;
                      at_latest = r.1;
                      returned_current = e;
                      returned_latest = f;
                      differ = differ;
                    } in
                    inl (
                      subst (λ (x : Change). (x.app ≡ app) × (x.scope ≡ scope) × Seen x) found
                        (refl, refl, seen))
              ]
            ]
      ]

  check_scopes_sound :
      (app : Str) (scopes : List Str) (s : S.State) (c : Change)
      → (check_scopes S app scopes s).0 ≡ ok (some c)
      → (c.app ≡ app) × Among c.scope scopes × Seen c
  unfolding check_scopes
  check_scopes_sound app [] s c h = ground arith
  check_scopes_sound app (scope ∷ scopes) s c h =
      elim (check_scope_sound app scope (check_scopes S app scopes) s c h) [
        | inl (a, b, seen) ↦ (a, inl b, seen)
        | inr (t, h') ↦ let (a, b, seen) = check_scopes_sound app scopes t c h' in (a, inr b, seen)
      ]

  check_apps_sound :
      (apps scopes : List Str) (s : S.State) (c : Change)
      → (check_apps S apps scopes s).0 ≡ ok (some c)
      → Among c.app apps × Among c.scope scopes × Seen c
  unfolding check_apps
  check_apps_sound [] scopes s c h = ground arith
  check_apps_sound (app ∷ apps) scopes s c h =
      let r = check_scopes S app scopes s in
      elim (Outcome-cases r.0) [
        | inr failed ↦ ground arith
        | inl (none, e) ↦
            let (a, b, seen) = check_apps_sound apps scopes r.1 c (ground arith) in (inr a, b, seen)
        | inl (some c', e) ↦
            let same : r.0 ≡ ok (some c) = ground arith in
            let (a, b, seen) = check_scopes_sound app scopes s c same in (inl a, b, seen)
      ]

  watch_ticks_sound :
      (ticks : ℕ) (apps scopes : List Str) (s : S.State) (c : Change)
      → (watch_ticks S ticks apps scopes s).0 ≡ ok (some c)
      → Among c.app apps × Among c.scope scopes × Seen c
  unfolding watch_ticks
  watch_ticks_sound zero apps scopes s c h = ground arith
  watch_ticks_sound (suc ticks) apps scopes s c h =
      let r = check_apps S apps scopes s in
      elim (Outcome-cases r.0) [
        | inr failed ↦ ground arith
        | inl (none, e) ↦ watch_ticks_sound ticks apps scopes r.1 c (ground arith)
        | inl (some c', e) ↦ check_apps_sound apps scopes s c (ground arith)
      ]

  -- A restart is asked for only where two versions differ: the application and scope of the message
  -- are watched, and the storage has returned both of its versions, which are not the same.
  pub watch_secrets_sound :
      (ignore : Option Str) (ticks : ℕ) (apps scopes : List Str) (s : S.State) (c : Change)
      → (watch_secrets S ignore ticks apps scopes s).0 ≡ ok (some c)
      → Among c.app (watched_apps ignore apps) × Among c.scope scopes × Seen c
  unfolding watch_secrets
  watch_secrets_sound ignore ticks apps scopes s c h =
      watch_ticks_sound ticks (watched_apps ignore apps) scopes s c h

  -- The versions that the storage returns at a state, without leaving it.
  pub record Returns (s : S.State) (app scope : Str) (current latest : ℤ) : Type 0 where
    pub gives_current : S.get_current_version app scope s ≡ (ok current, s)
    pub gives_latest : S.get_latest_version app scope s ≡ (ok latest, s)

  -- The poll does not panic and leaves the state of the storage.
  abbrev pub IsQuiet : S.State → List Str → Str → Type 0
  IsQuiet s scopes app = (o : Option Change) × (check_scopes S app scopes s ≡ (ok o, s))

  abbrev pub AllReturn : S.State → Str → (Str → ℤ) → (Str → ℤ) → List Str → Type 0
  AllReturn s app current latest [] = Unit
  AllReturn s app current latest (scope ∷ scopes) =
      Returns s app scope (current scope) (latest scope) × AllReturn s app current latest scopes

  check_scope_lem :
      (app scope : Str) (current latest : ℤ) (rest : Exec S.State (Option Change)) (s : S.State)
      → Returns s app scope current latest
      → check_scope S app scope rest s ≡ (
          if int_eq current latest then rest s else (
            ok (some (record { app = app; scope = scope; current = current; latest = latest })),
            s,
          ))
  unfolding check_scope
  check_scope_lem app scope current latest rest s h =
      ground (arith, h.gives_current, h.gives_latest)

  check_scopes_complete :
      (app scope : Str) (scopes : List Str) (current latest : Str → ℤ) (s : S.State)
      → AllReturn s app current latest scopes
      → Among scope scopes
      → int_eq (current scope) (latest scope) ≡ false
      → (c : Change) × (check_scopes S app scopes s ≡ (ok (some c), s))
  unfolding check_scopes
  check_scopes_complete app scope [] current latest s h m d = absurd m
  check_scopes_complete app scope (x ∷ scopes) current latest s h m d =
      let step = check_scope_lem app x (current x) (latest x) (check_scopes S app scopes) s h.0 in
      elim (Bool-cases (int_eq (current x) (latest x))) [
        | inr differ ↦ (
          record { app = app; scope = x; current = current x; latest = latest x },
          rw (step, differ),
        )
        | inl same ↦
            let (c, found) =
              check_scopes_complete app scope scopes current latest s h.1
                (further scope x scopes current latest m d same) d in
            (c, rw (step, same) found)
      ]

  -- Where every scope of a watched application returns its versions, those of one scope differ,
  -- and the poll of each watched application returns without a panic and leaves the storage's
  -- state, the next poll ends with a change.
  pub check_apps_complete :
      (app scope : Str) (apps scopes : List Str) (current latest : Str → ℤ) (s : S.State)
      → Among app apps
      → Among scope scopes
      → AllReturn s app current latest scopes
      → int_eq (current scope) (latest scope) ≡ false
      → All (IsQuiet s scopes) apps
      → (c : Change) × (check_apps S apps scopes s ≡ (ok (some c), s))
  unfolding check_apps
  check_apps_complete app scope [] scopes current latest s a b h d q = absurd a
  check_apps_complete app scope (x ∷ apps) scopes current latest s (inl e) b h d q =
      let (c, found) = check_scopes_complete app scope scopes current latest s h b d in
      (c, rw (← e, found, check_apps))
  check_apps_complete app scope (x ∷ apps) scopes current latest s (inr a) b h d q =
      let (o, quiet) = q.0 in
      elim (Option-cases o) [
        | inr (c, e) ↦ (c, rw (quiet, e, check_apps))
        | inl e ↦
            let (c, found) =
              check_apps_complete app scope apps scopes current latest s a b h d q.1 in
            (c, rw (quiet, e, check_apps) found)
      ]
