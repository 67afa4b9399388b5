-- ===== src/Commands/Main.antt =====
-- The main functions of cmd/kaisave, cmd/kaidump, cmd/kaienv and cmd/kaidel, and GetStorage of
-- cmd/env/env.go, once their flags are parsed. Lines of progress on stdout are left out but for kaidump,
-- where it matters what is printed.
pub mod Quiet
use kaigara.Base.{
  ℕ, Bool, true, false, Option, none, some, List, [], ◌∷◌, ◌++◌, Str, bytes, if◌then◌else◌,
}
use kaigara.Base.Dict.{Dict}
use kaigara.Base.Exec.{
  Exec, Outcome, ok, err, panic, pure, abort, lift, must, focus, continue, usage, ◌>>=◌, ◌>>◌,
}
use kaigara.Value.{Value}
use kaigara.Storage.Interface.{Storage}
use kaigara.Config.Service.{KaigaraConfig, StorageKind, get_storage_service}
use kaigara.Commands.Kaisave.{SecretsFile, save_all}
use kaigara.Commands.Kaidump.{Dump, kaidump_run}
use kaigara.Commands.Kaienv.{kaienv_run}
use kaigara.Commands.Kaidel.{kaidel}
use kaigara.Commands.SetupStore.{setup_store}

-- A storage service whose state is a part of the machine.
pub record Mounted (World : Type 0) : Type 1 where
  pub storage : Storage
  pub get : World → storage.State
  pub put : storage.State → World → World

-- What the commands find on the machine: files, YAML, the configuration loader pkg/ika, the services
-- behind the storages, and stdout.
pub record Host : Type 1 where
  pub World : Type 0
  pub read_file : Str → Exec World Str
  -- with the permissions
  pub write_file : Str → ℕ → Str → Exec World (Unit {0})
  pub getwd : Exec World Str
  pub print : Str → World → World
  pub read_config : Exec World KaigaraConfig
  pub connect : Str → Str → Outcome (Unit {0})
  pub open_database : Str → Outcome (Unit {0})
  pub mount : StorageKind → Mounted World
  pub parse_secrets : Str → Outcome SecretsFile
  pub parse_defaults : Str → Outcome (Dict (Dict (Dict Str)))
  pub encode_dump : Dump → Outcome Str
  -- fmt's %v
  pub sprint : Option Value → Str

module _ (H : Host) where
  abbrev pub on_storage :
      {A : Type 0} → StorageKind → ((S : Storage) → Exec S.State A) → Exec H.World A
  on_storage kind m =
      let mounted = H.mount kind in focus mounted.get mounted.put (m mounted.storage)

  abbrev pub printing : Str → Exec H.World (Unit {0})
  printing s w = (ok tt, H.print s w)

  -- GetStorageService, where an error panics
  unfoldable pub open_store : KaigaraConfig → Exec H.World StorageKind
  open_store cnf = must (lift (get_storage_service H.connect H.open_database cnf))

  unfoldable pub kaisave_main : Str → Exec H.World (Unit {0})
  unfolding open_store
  kaisave_main filepath = do
    dat ← must (H.read_file filepath)
    secrets ← must (lift (H.parse_secrets dat))
    cnf ← must H.read_config
    kind ← open_store cnf
    on_storage kind (λ S. save_all S secrets)

  unfoldable pub print_dump : Bool → Str → Exec H.World (Unit {0})
  print_dump true b = printing b
  print_dump false b = pure tt

  -- The flags are -a, the path, and -stdout.
  unfoldable pub kaidump_main : Str → Bool → Exec H.World (Unit {0})
  unfolding open_store print_dump
  kaidump_main filepath to_stdout = do
    cnf ← must H.read_config
    kind ← open_store cnf
    dump ← on_storage kind (λ S. kaidump_run S cnf.scopes)
    b ← must (lift (H.encode_dump dump))
    print_dump to_stdout b
    must (H.write_file filepath 384 b)
    printing (bytes "# Saved the dump into " ++ (filepath ++ (b'\n' ∷ [])))

  unfoldable pub kaienv_main : List Str → Exec H.World (Unit {0})
  unfolding open_store
  kaienv_main params = do
    conf ← must H.read_config
    kind ← open_store conf
    out ← must (on_storage kind (λ S. kaienv_run S H.sprint conf.app_names conf.scopes params))
    printing out

  -- The flags are -a, -s and -k. They are checked before the configuration is read.
  unfoldable pub kaidel_main : Str → Str → Str → Exec H.World (Unit {0})
  unfolding open_store
  kaidel_main app scopes [] = abort usage
  kaidel_main [] scopes (k ∷ key) = abort usage
  kaidel_main (a ∷ app) [] (k ∷ key) = abort usage
  kaidel_main (a ∷ app) (c ∷ scopes) (k ∷ key) = do
    cnf ← must H.read_config
    kind ← open_store cnf
    on_storage kind (λ S. kaidel S (a ∷ app) (c ∷ scopes) (k ∷ key))

  unfoldable pub get_storage : KaigaraConfig → Exec H.World StorageKind
  unfolding open_store
  get_storage cfg = do
    kind ← open_store cfg
    path ← must H.getwd
    env_file ← must (H.read_file (path ++ bytes "/../env/env.yml"))
    envs ← must (lift (H.parse_defaults env_file))
    on_storage kind (λ S. setup_store S envs)
    pure kind
