-- ===== src/Runner/Launch/Written.antt =====
-- What stands on the disk when the child starts.
use kaigara.Base.{
  subst, str_eq_refl, ◌≡◌, refl, sym, ◌∙◌, false, Option, some, [], ◌∷◌, Str, All, arith, inl, inr,
  str_eq, if◌then◌else◌,
}
use kaigara.Base.Dict.{Dict}
use kaigara.Base.Exec.{Outcome, Outcome-cases, ok}
use kaigara.Config.CmdEnv.{File}
use kaigara.Runner.Launch.{FileSystem, write_files}

-- The documented behaviour that the wrapper relies on: a file that was written has its content, and the
-- other files, and all files when a directory is made, keep theirs. Paths are names of files as they are
-- written: of two that differ, neither is another name of the file of the other.
pub record IsFileSystem (F : FileSystem) : Type 0 where
  pub content : Str → F.Disk → Option Str
  pub content-write_file :
      (path c other : Str) (d : F.Disk)
      → (F.write_file path c d).0 ≡ ok tt
      → content other (F.write_file path c d).1
        ≡ (if str_eq path other then some c else content other d)
  pub content-mkdir_all :
      (path other : Str) (d : F.Disk) → content other (F.mkdir_all path d).1 ≡ content other d

-- No two files have one path.
abbrev pub NodupPaths : Dict File → Type 0
NodupPaths [] = Unit
NodupPaths ((_, file) ∷ files) =
    All (λ (other : Str × File). str_eq other.1.path file.path ≡ false) files × NodupPaths files

module _ (F : FileSystem) (system : IsFileSystem F) where
  abbrev pub Stands : F.Disk → Str × File → Type 0
  Stands d (_, file) = system.content file.path d ≡ some file.content

  write_files-cons :
      (name : Str) (file : File) (files : Dict File) (d : F.Disk)
      → (write_files F ((name, file) ∷ files) d).0 ≡ ok tt
      → let made = (F.mkdir_all (F.dir file.path) d).1 in
        ((F.write_file file.path file.content made).0 ≡ ok tt)
        × (write_files F ((name, file) ∷ files) d
            ≡ write_files F files (F.write_file file.path file.content made).1)
  unfolding write_files
  write_files-cons name file files d h = elim (Outcome-cases (F.mkdir_all (F.dir file.path) d).0) [
    | inr e ↦ ground arith
    | inl (_, e) ↦
        let made = (F.mkdir_all (F.dir file.path) d).1 in
        elim (Outcome-cases (F.write_file file.path file.content made).0) [
          | inr w ↦ ground arith
          | inl (_, w) ↦ (w, ground arith)
        ]
  ]

  -- The loop does not touch a path that none of its files has.
  write_files-other :
      (path : Str) (files : Dict File) (d : F.Disk)
      → All (λ (other : Str × File). str_eq other.1.path path ≡ false) files
      → (write_files F files d).0 ≡ ok tt
      → system.content path (write_files F files d).1 ≡ system.content path d
  write_files-other path [] d apart h = unfold write_files in refl
  write_files-other path ((name, file) ∷ files) d apart h =
      let (written, step) = write_files-cons name file files d h in
      let made = (F.mkdir_all (F.dir file.path) d).1 in
      let w = (F.write_file file.path file.content made).1 in
      rw step (
        write_files-other path files w apart.1 (rw step at h)
        ∙ system.content-write_file file.path file.content path made written
        ∙ rw (apart.0) (system.content-mkdir_all (F.dir file.path) path d))

  -- Where the files of the environment have paths of their own, a loop that succeeds leaves each of them on
  -- the disk with its content, if the file system keeps what is written.
  pub write_files-Stands :
      (files : Dict File) (d : F.Disk)
      → NodupPaths files
      → (write_files F files d).0 ≡ ok tt
      → All (Stands (write_files F files d).1) files
  write_files-Stands [] d nodup h = tt
  write_files-Stands ((name, file) ∷ files) d nodup h =
      let (written, step) = write_files-cons name file files d h in
      let made = (F.mkdir_all (F.dir file.path) d).1 in
      let w = (F.write_file file.path file.content made).1 in
      subst (λ (r : Outcome (Unit {0}) × F.Disk). All (Stands r.1) ((name, file) ∷ files))
        (sym step)
        (
          write_files-other file.path files w nodup.0 (rw step at h)
              ∙ system.content-write_file file.path file.content file.path made written
              ∙ rw str_eq_refl,
          write_files-Stands files w nodup.1 (rw step at h),
        )
