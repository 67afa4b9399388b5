-- ===== src/Commands/Main/Quiet.antt =====
-- What kaidump prints.
use kaigara.Base.{◌≡◌, refl, ◌∙◌, ap, ◌⊎◌, inl, inr, false, ℕ, Str, [], ◌∷◌, ◌++◌, bytes}
use kaigara.Base.Exec.{Exec, Outcome, ok, err, panic, must, lift, continue, ◌>>=◌, ◌>>◌}
use kaigara.Config.Service.{KaigaraConfig, StorageKind}
use kaigara.Commands.Kaidump.{kaidump_run}
use kaigara.Commands.Main.{Host, open_store, on_storage, printing, print_dump, kaidump_main}

-- The console of a machine: only what is printed comes there.
pub record Console (H : Host) : Type 0 where
  pub stdout : H.World → Str
  pub prints : (s : Str) (w : H.World) → stdout (H.print s w) ≡ stdout w ++ s
  pub read_config_quiet : (w : H.World) → stdout (H.read_config w).1 ≡ stdout w
  pub write_file_quiet :
      (path : Str) (mode : ℕ) (b : Str) (w : H.World)
      → stdout (H.write_file path mode b w).1 ≡ stdout w
  pub put_quiet :
      (kind : StorageKind) (s : (H.mount kind).storage.State) (w : H.World)
      → stdout ((H.mount kind).put s w) ≡ stdout w

module _ {H : Host} (console : Console H) where
  -- It prints nothing, or this at the most.
  abbrev IsQuiet : {A : Type 0} → Exec H.World A → Type 0
  IsQuiet m = (w : H.World) → console.stdout (m w).1 ≡ console.stdout w

  abbrev PrintsAtMost : {A : Type 0} → Str → Exec H.World A → Type 0
  PrintsAtMost s m =
      (w : H.World)
      → (console.stdout (m w).1 ≡ console.stdout w)
        ⊎ (console.stdout (m w).1 ≡ console.stdout w ++ s)

  continue-PrintsAtMost :
      {A B : Type 0} (s : Str) (r : Outcome A) (f : A → Exec H.World B)
      → ((a : A) → PrintsAtMost s (f a))
      → PrintsAtMost s (continue r f)
  continue-PrintsAtMost s (ok a) f h w = h a w
  continue-PrintsAtMost s (err e) f h w = inl refl
  continue-PrintsAtMost s (panic p) f h w = inl refl

  bind-PrintsAtMost :
      {A B : Type 0} (s : Str) (m : Exec H.World A) (f : A → Exec H.World B)
      → IsQuiet m
      → ((a : A) → PrintsAtMost s (f a))
      → PrintsAtMost s (m >>= f)
  bind-PrintsAtMost s m f quiet h w = elim (continue-PrintsAtMost s (m w).0 f h (m w).1) [
    | inl e ↦ inl (e ∙ quiet w)
    | inr e ↦ inr (e ∙ ap (λ t. t ++ s) (quiet w))
  ]

  open_store-IsQuiet : (cnf : KaigaraConfig) → IsQuiet (open_store H cnf)
  unfolding open_store
  open_store-IsQuiet cnf w = refl

  -- Without -stdout, kaidump prints at the most the line that names its file, whatever the store holds and
  -- wherever it stops: no secret comes to stdout, on a machine where only what is printed comes there.
  pub kaidump_main-stdout :
      (filepath : Str) (w : H.World)
      → let after = console.stdout (kaidump_main H filepath false w).1 in
        (after ≡ console.stdout w)
        ⊎ (after
            ≡ console.stdout w ++ (bytes "# Saved the dump into " ++ (filepath ++ (b'\n' ∷ []))))
  unfolding kaidump_main print_dump
  kaidump_main-stdout filepath =
      let line = bytes "# Saved the dump into " ++ (filepath ++ (b'\n' ∷ [])) in
      bind-PrintsAtMost line (must H.read_config) _ console.read_config_quiet λ cnf.
        bind-PrintsAtMost line (open_store H cnf) _ (open_store-IsQuiet cnf) λ kind.
          bind-PrintsAtMost line (on_storage H kind (λ S. kaidump_run S cnf.scopes)) _
            (λ w. console.put_quiet kind _ w)
            λ dump.
              bind-PrintsAtMost line (must (lift (H.encode_dump dump))) _ (λ w. refl)
                λ b.
                  bind-PrintsAtMost {B = Unit {0}} line (print_dump H false b)
                    (λ _. must (H.write_file filepath 384 b) >> printing H line) (λ w. refl)
                    λ _.
                      bind-PrintsAtMost {B = Unit {0}} line (must (H.write_file filepath 384 b))
                        (λ _. printing H line) (console.write_file_quiet filepath 384 b)
                        λ _ w. inr (console.prints line w)
