-- ===== src/Runner/Run/Selected.antt =====
-- kaigaraRun of cmd/kaigara/kaigara.go: what the happenings of a run hand to the supervisor, in pieces: a piece without the
-- end of the child, and the first change that the watcher sees.
use kaigara.Base.{
  ℕ, ◌≡◌, refl, sym, ap, ◌∙◌, true, false, none, some, List, [], ◌∷◌, ◌++◌, append_assoc, Str,
  arith, Bool-cases, Option-cases, inl, inr, subst, if◌then◌else◌,
}
use kaigara.Base.Exec.{Exec, ok, pure, continue, ◌>>=◌, ◌>>◌, >>=-eq-ok}
use kaigara.Base.Int64.{ℤ}
use kaigara.Storage.Interface.{Storage}
use kaigara.Runner.Supervise.{exited, signalled, restart, timer}
use kaigara.Runner.Supervise.Delivery.{Events, Running}
use kaigara.Runner.Watch.{Change, check_apps}
use kaigara.Runner.Run.{
  Happening, ended, signal, deadline, tick, deliver, elsewhere, Watcher, message, on_tick,
  on_deliver, selected,
}

-- The child does not end.
abbrev pub NoEnd : {S : Storage} → List (ℕ × Happening S) → Type 0
NoEnd [] = Unit
NoEnd ((now, ended e) ∷ more) = ⊥
NoEnd ((now, _) ∷ more) = NoEnd more

-- Nothing but ticks, and changes of the store by others.
abbrev pub Idle : {S : Storage} → List (ℕ × Happening S) → Type 0
Idle [] = Unit
Idle ((now, tick) ∷ more) = Idle more
Idle ((now, elsewhere f) ∷ more) = Idle more
Idle ((now, _) ∷ more) = ⊥

Running-append : (xs ys : Events) → Running xs → Running ys → Running (xs ++ ys)
Running-append [] ys h k = k
Running-append ((now, exited e) ∷ xs) ys h k = absurd h
Running-append ((now, signalled g) ∷ xs) ys h k = Running-append xs ys h k
Running-append ((now, restart r) ∷ xs) ys h k = Running-append xs ys h k
Running-append ((now, timer) ∷ xs) ys h k = Running-append xs ys h k

module _ (S : Storage) (sprint : ℤ → Str) (apps scopes : List Str) where
  abbrev pub select : List (ℕ × Happening S) → Exec (Watcher S) Events
  select = selected S sprint apps scopes

  pub prefix-eq-ok :
      (es all : Events) (rest : Exec (Watcher S) Events) (w : Watcher S)
      → ((rest >>= (λ more. pure (es ++ more))) w).0 ≡ ok all
      → (more : Events) × ((rest w).0 ≡ ok more) × (all ≡ es ++ more)
  prefix-eq-ok es all rest w h =
      let (more, done, is) = >>=-eq-ok rest (λ more. pure (es ++ more)) w h in
      (more, done, ground arith)

  on_deliver-Running :
      (now : ℕ) (es : Events) (w : Watcher S) → (on_deliver S sprint now w).0 ≡ ok es → Running es
  unfolding on_deliver
  on_deliver-Running now es w h = elim (Option-cases w.pending) [
    | inl e ↦ let is : [] ≡ es = ground arith in rw (← is) tt
    | inr (c, e) ↦
        let is : (now, restart (message S sprint c)) ∷ [] ≡ es = ground arith in rw (← is) tt
  ]

  -- What is selected of happenings without the end of the child, and then of the others.
  abbrev pub Parts : List (ℕ × Happening S) → Events → Type 0
  Parts more all =
      (xs ys : Events) × (w : Watcher S) × (all ≡ xs ++ ys)
      × Running xs
      × ((select more w).0 ≡ ok ys)

  Parts-prefix :
      (es rest all : Events) (more : List (ℕ × Happening S))
      → Running es
      → all ≡ es ++ rest
      → Parts more rest
      → Parts more all
  Parts-prefix es rest all more running is (xs, ys, w, split, h, done) = (
    es ++ xs,
    ys,
    w,
    is ∙ ap (λ t. es ++ t) split ∙ sym (append_assoc es xs ys),
    Running-append es xs running h,
    done,
  )

  pub select-append :
      (between more : List (ℕ × Happening S)) (all : Events) (w : Watcher S)
      → NoEnd between
      → (select (between ++ more) w).0 ≡ ok all
      → Parts more all
  unfolding selected
  select-append [] more all w running h = ([], all, w, refl, tt, h)
  select-append ((now, ended e) ∷ between) more all w running h = absurd running
  select-append ((now, signal g) ∷ between) more all w running h =
      let (rest, done, is) =
        prefix-eq-ok ((now, signalled g) ∷ []) all (select (between ++ more)) w h in
      Parts-prefix ((now, signalled g) ∷ []) rest all more tt is
        (select-append between more rest w running done)
  select-append ((now, deadline) ∷ between) more all w running h =
      let (rest, done, is) = prefix-eq-ok ((now, timer) ∷ []) all (select (between ++ more)) w h in
      Parts-prefix ((now, timer) ∷ []) rest all more tt is
        (select-append between more rest w running done)
  select-append ((now, tick) ∷ between) more all w running h =
      let poll = on_tick S sprint apps scopes in
      let rest = select (between ++ more) in
      elim (Bool-cases w.watching) [
        | inl e ↦
            let polled = subst (λ b. ((if b then poll >> rest else rest) w).0 ≡ ok all) e h in
            let (_, _, later) = >>=-eq-ok poll (λ _. rest) w polled in
            select-append between more all (poll w).1 running later
        | inr e ↦
            select-append between more all w running
              (subst (λ b. ((if b then poll >> rest else rest) w).0 ≡ ok all) e h)
      ]
  select-append ((now, deliver) ∷ between) more all w running h =
      let (es, delivered, later) =
        >>=-eq-ok (on_deliver S sprint now)
          (λ es. select (between ++ more) >>= (λ rest. pure (es ++ rest))) w h in
      let (rest, done, is) = prefix-eq-ok es all (select (between ++ more)) _ later in
      Parts-prefix es rest all more (on_deliver-Running now es w delivered) is
        (select-append between more rest _ running done)
  select-append ((now, elsewhere f) ∷ between) more all w running h =
      select-append between more all _ running h

  -- A watcher that has sent its message leaves it as it is until it is taken.
  selected-Idle :
      (idle more : List (ℕ × Happening S)) (all : Events) (w : Watcher S)
      → Idle idle
      → w.watching ≡ false
      → (select (idle ++ more) w).0 ≡ ok all
      → (u : Watcher S) × (u.pending ≡ w.pending) × ((select more u).0 ≡ ok all)
  unfolding selected
  selected-Idle [] more all w idles away h = (w, refl, h)
  selected-Idle ((now, tick) ∷ idle) more all w idles away h =
      let poll = on_tick S sprint apps scopes in
      let rest = select (idle ++ more) in
      selected-Idle idle more all w idles away
        (subst (λ b. ((if b then poll >> rest else rest) w).0 ≡ ok all) away h)
  selected-Idle ((now, elsewhere f) ∷ idle) more all w idles away h =
      selected-Idle idle more all (record w { store = f w.store }) idles away h
  selected-Idle ((now, ended e) ∷ idle) more all w idles away h = absurd idles
  selected-Idle ((now, signal g) ∷ idle) more all w idles away h = absurd idles
  selected-Idle ((now, deadline) ∷ idle) more all w idles away h = absurd idles
  selected-Idle ((now, deliver) ∷ idle) more all w idles away h = absurd idles

  -- The message that waits is taken.
  taken_message :
      (taken : ℕ) (c : Change) (more : List (ℕ × Happening S)) (all : Events) (w : Watcher S)
      → w.pending ≡ some c
      → (select ((taken, deliver) ∷ more) w).0 ≡ ok all
      → (es : Events) × (u : Watcher S) × ((select more u).0 ≡ ok es)
        × (all ≡ (taken, restart (message S sprint c)) ∷ es)
  unfolding selected on_deliver
  taken_message taken c more all w waits h =
      let told : Events = (taken, restart (message S sprint c)) ∷ [] in
      let u : Watcher S = record w { pending = none } in
      let rest : Events → Exec (Watcher S) Events =
        λ es. select more >>= (λ later. pure (es ++ later)) in
      let delivered : on_deliver S sprint taken w ≡ (ok told, u) = rw (on_deliver, waits) refl in
      let after = subst (λ r. (continue r.0 rest r.1).0 ≡ ok all) delivered h in
      let (es, done, is) = prefix-eq-ok told all (select more) u after in (es, u, done, is)

  -- The first change that the watcher sees: its message reaches the supervisor.
  pub seen_change :
      (seen taken : ℕ) (c : Change) (idle more : List (ℕ × Happening S)) (all : Events)
      (w : Watcher S)
      → w.watching ≡ true
      → (check_apps S apps scopes w.store).0 ≡ ok (some c)
      → Idle idle
      → (select ((seen, tick) ∷ (idle ++ ((taken, deliver) ∷ more))) w).0 ≡ ok all
      → (es : Events) × (u : Watcher S) × ((select more u).0 ≡ ok es)
        × (all ≡ (taken, restart (message S sprint c)) ∷ es)
  unfolding selected on_tick
  seen_change seen taken c idle more all w watching change idles h =
      let poll = on_tick S sprint apps scopes in
      let rest = select (idle ++ ((taken, deliver) ∷ more)) in
      let caught : Watcher S = record {
        watching = false;
        pending = some c;
        store = (check_apps S apps scopes w.store).1;
      } in
      let polled : poll w ≡ (ok tt, caught) = rw (on_tick, change) refl in
      let first = subst (λ b. ((if b then poll >> rest else rest) w).0 ≡ ok all) watching h in
      let after = subst (λ r. (continue r.0 (λ _. rest) r.1).0 ≡ ok all) polled first in
      let (u, still, later) =
        selected-Idle idle ((taken, deliver) ∷ more) all caught idles refl after in
      taken_message taken c more all u still later
