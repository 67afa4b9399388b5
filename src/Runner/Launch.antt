-- ===== src/Runner/Launch.antt =====
-- What kaigaraRun of cmd/kaigara/kaigara.go does before it starts the child: the names that it makes of its
-- configuration, and the files that it writes.
pub mod Written
use kaigara.Base.{List, [], ◌∷◌, ◌++◌, Str, bytes, split, join}
use kaigara.Base.Dict.{Dict}
use kaigara.Base.Exec.{Exec, Outcome, ok, err, panic, of_error, pure, must, continue, ◌>>◌}
use kaigara.Config.CmdEnv.{File}

unfoldable pub parse_app_names : Str → List Str
parse_app_names app_names = split b',' app_names

unfoldable pub app_names_to_logging_name : Str → Str
unfolding parse_app_names
app_names_to_logging_name app_names = join (bytes "&") (parse_app_names app_names)

-- The channels of stdout and stderr.
unfoldable pub log_channel : Str → Str → Str
unfolding app_names_to_logging_name
log_channel app_names stream =
    bytes "log." ++ (app_names_to_logging_name app_names ++ (bytes "." ++ stream))

-- os/exec, as the wrapper uses it for its command: the three pipes, and c.Start of the command with its
-- arguments and environment.
pub record Launcher : Type 0 where
  pub stdin_pipe : Outcome (Unit {0})
  pub stdout_pipe : Outcome (Unit {0})
  pub stderr_pipe : Outcome (Unit {0})
  pub start : Str → List Str → List Str → Outcome (Unit {0})

abbrev then_launch : Outcome (Unit {0}) → Outcome (Unit {0}) → Outcome (Unit {0})
then_launch (ok _) r = r
then_launch (err e) r = err e
then_launch (panic p) r = panic p

-- Without a pipe for stdin kaigaraRun panics; every error after it is fatal.
unfoldable pub launch : Launcher → Str → List Str → List Str → Outcome (Unit {0})
launch L cmd args vars =
    then_launch
      (elim L.stdin_pipe [ ok _ ↦ ok tt | err e ↦ panic (of_error e) | panic p ↦ panic p ])
      (then_launch L.stdout_pipe (then_launch L.stderr_pipe (L.start cmd args vars)))

-- The file system, as the wrapper uses it: os.MkdirAll, ioutil.WriteFile, and path.Dir.
pub record FileSystem : Type 1 where
  pub Disk : Type 0
  pub mkdir_all : Str → Exec Disk (Unit {0})
  pub write_file : Str → Str → Exec Disk (Unit {0})
  pub dir : Str → Str

module _ (F : FileSystem) where
  -- The loop over env.Files.
  unfoldable pub write_files : Dict File → Exec F.Disk (Unit {0})
  write_files [] = pure tt
  write_files ((name, file) ∷ files) = do
    must (F.mkdir_all (F.dir file.path))
    must (F.write_file file.path file.content)
    write_files files
