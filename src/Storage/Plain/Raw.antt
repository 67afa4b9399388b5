-- ===== src/Storage/Plain/Raw.antt =====
-- Storages that keep a raw value for each entry, which stands for the value of the entry.
use kaigara.Base.{◌≡◌, refl, ◌⊎◌, ◌&&◌, Option, none, some, Str, str_eq, Bool-cases, inl, inr}
use kaigara.Value.{Value}
use kaigara.Storage.Plain.{Plain, update, same_names}

module _ {State : Type 0} (raw : State → Plain)
    (StandsFor : State → Str → Str → Str → Value → Value → Type 0) where
  -- The raw value of an entry and its value.
  abbrev pub Counterpart : State → Str → Str → Str → Option Value → Option Value → Type 0
  Counterpart s app scope name none none = Unit
  Counterpart s app scope name (some r) (some v) = StandsFor s app scope name r v
  Counterpart s app scope name none (some v) = ⊥
  Counterpart s app scope name (some r) none = ⊥

  abbrev pub RawRepresents : State → Plain → Type 0
  RawRepresents s m =
      (app scope name : Str)
      → Counterpart s app scope name (raw s app scope name) (m app scope name)

  pub Counterpart-cases :
      (s : State) (app scope name : Str) (r v : Option Value)
      → Counterpart s app scope name r v
      → ((r ≡ none) × (v ≡ none))
        ⊎ ((x y : Value) × (r ≡ some x) × (v ≡ some y) × StandsFor s app scope name x y)
  Counterpart-cases s app scope name none none h = inl (refl, refl)
  Counterpart-cases s app scope name (some x) (some y) h = inr (x, y, refl, refl, h)
  Counterpart-cases s app scope name none (some y) h = absurd h
  Counterpart-cases s app scope name (some x) none h = absurd h

  -- Values that stand for something in the one state do so in the other.
  abbrev pub Preserves : State → State → Type 0
  Preserves s t =
      (app scope name : Str) (r v : Value)
      → StandsFor s app scope name r v
      → StandsFor t app scope name r v

  Counterpart-Preserves :
      (s t : State) (app scope name : Str) (r v : Option Value)
      → Preserves s t
      → Counterpart s app scope name r v
      → Counterpart t app scope name r v
  Counterpart-Preserves s t app scope name none none keeps h = tt
  Counterpart-Preserves s t app scope name (some r) (some v) keeps h = keeps app scope name r v h
  Counterpart-Preserves s t app scope name none (some v) keeps h = absurd h
  Counterpart-Preserves s t app scope name (some r) none keeps h = absurd h

  pub same-RawRepresents :
      (s t : State) (m : Plain)
      → ((app scope name : Str) → raw t app scope name ≡ raw s app scope name)
      → Preserves s t
      → RawRepresents s m
      → RawRepresents t m
  same-RawRepresents s t m same keeps h app scope name =
      rw (same app scope name)
        (Counterpart-Preserves s t app scope name _ _ keeps (h app scope name))

  pub update-RawRepresents :
      (app scope name : Str) (r v : Option Value) (s t : State) (m : Plain)
      → ((app' scope' name' : Str)
          → raw t app' scope' name' ≡ update app scope name r (raw s) app' scope' name')
      → Counterpart t app scope name r v
      → Preserves s t
      → RawRepresents s m
      → RawRepresents t (update app scope name v m)
  update-RawRepresents app scope name r v s t m step new keeps h app' scope' name' =
      elim (Bool-cases (str_eq app app' && (str_eq scope scope' && str_eq name name'))) [
        | inl here ↦
            let (a, c, n) = same_names app scope name app' scope' name' here in
            rw (step app' scope' name', here, ← a, ← c, ← n) new
        | inr other ↦
            rw (step app' scope' name', other)
              (Counterpart-Preserves s t app' scope' name' _ _ keeps (h app' scope' name'))
      ]
