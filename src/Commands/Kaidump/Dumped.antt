-- ===== src/Commands/Kaidump/Dumped.antt =====
-- From the file of kaisave to the dump of kaidump, on the SQL storage.
use kaigara.Base.{
  ◌≡◌, refl, ap, ◌∙◌, false, some, ◌⊎◌, Option, List, [], ◌∷◌, Str, str_eq, str_eq_iff, str_eq_refl,
  split, arith, Among, Bool-cases, inl, inr,
}
use kaigara.Base.Dict
use kaigara.Base.Dict.{Dict, NodupKeys}
use kaigara.Base.Exec.{Outcome-cases, ok, >>=-eq-ok}
use kaigara.Value.{Value, reload}
use kaigara.Encryptor.{Encryptor, IsFaithful}
use kaigara.Storage.Gorm.{Gorm, IsTable}
use kaigara.Storage.Sql.{
  StorageService, sql_storage, version_key, read, get_entries, list_app_names,
}
use kaigara.Storage.Sql.AllEntries.{get_entries-Holds}
use kaigara.Storage.Sql.Frame.{db-read}
use kaigara.Storage.Sql.Saved.{NotMinusOne}
use kaigara.Storage.Sql.Steps.{IsSealed, get_entries-Unchanged}
use kaigara.Commands.Kaidump.{Dump, dump_scopes, dump_apps, kaidump_run}
use kaigara.Commands.Kaisave.{SecretsFile, save_all}
use kaigara.Commands.Kaisave.Published.{Publishes}
use kaigara.Commands.Kaisave.SaveAll.{save_all-Publishes}
use kaigara.Commands.ReadOnly.{dump_scopes-IsReadOnly}

-- A map has a value of a kind at a key.
abbrev At : {V : Type 0} → Str → (V → Type 0) → Dict V → Type 0
At {V} k P m = (v : V) × (Dict.lookup k m ≡ some v) × P v

At-insert :
    {V : Type 0} (j k : Str) (P : V → Type 0) (v : V) (m : Dict V)
    → (j ≡ k → P v)
    → (str_eq j k ≡ false → At k P m)
    → At k P (Dict.insert j v m)
At-insert j k P v m here there = elim (Bool-cases (str_eq j k)) [
  | inl e ↦ (v, Dict.lookup-insert j k v m ∙ rw e refl, here ((str_eq_iff j k).0 e))
  | inr e ↦ let (w, found, is) = there e in (w, Dict.lookup-insert j k v m ∙ rw e found, is)
]

-- The entries of a scope give a value for a name.
abbrev Gives : Str → Value → Dict (Option Value) → Type 0
Gives name v entries = Dict.lookup name entries ≡ some (some v)

-- The dump has the entry, under its application and scope.
abbrev pub Dumps : Str → Str → Str → Value → Dump → Type 0
Dumps app scope name v = At app (At scope (Gives name v))

Among-other : (x y : Str) (ys : List Str) → str_eq y x ≡ false → Among x (y ∷ ys) → Among x ys
Among-other x y ys e (inl same) = ground (arith, str_eq_refl x)
Among-other x y ys e (inr later) = later

module _ {G : Gorm} {E : Encryptor} where
  dump_scopes-cons :
      (app scope : Str) (scopes : List Str) (acc res : Dict (Dict (Option Value)))
      (s : StorageService G E)
      → (dump_scopes (sql_storage G E) app (scope ∷ scopes) acc s).0 ≡ ok res
      → let loaded = (read app scope s).1 in
        (secrets : Dict (Option Value)) × ((get_entries app scope loaded).0 ≡ ok secrets)
        × ((dump_scopes
              (sql_storage G E)
              app
              scopes
              (Dict.insert scope secrets acc)
              (get_entries app scope loaded).1).0
            ≡ ok res)
  unfolding dump_scopes
  dump_scopes-cons app scope scopes acc res s h = elim (Outcome-cases (read app scope s).0) [
    | inr e ↦ ground arith
    | inl (_, e) ↦ elim (Outcome-cases (get_entries app scope (read app scope s).1).0) [
      | inr f ↦ ground arith
      | inl (secrets, f) ↦ (secrets, f, ground arith)
    ]
  ]

  module _ (faithful : IsFaithful E) (app scope name : Str) (v : Value) (u : StorageService G E)
      (published : Publishes app scope name v u) where
    dump_scopes-provides :
        (scopes : List Str) (acc res : Dict (Dict (Option Value))) (s : StorageService G E)
        → s.db ≡ u.db
        → At scope (Gives name v) acc ⊎ Among scope scopes
        → (dump_scopes (sql_storage G E) app scopes acc s).0 ≡ ok res
        → At scope (Gives name v) res
    unfolding dump_scopes
    dump_scopes-provides [] acc res s same (inl there) h =
        let is : acc ≡ res = ground arith in rw (← is) there
    dump_scopes-provides [] acc res s same (inr left) h = absurd left
    dump_scopes-provides (k ∷ scopes) acc res s same asked h =
        let (secrets, got, rest) = dump_scopes-cons app k scopes acc res s h in
        let loaded = (read app k s).1 in
        let kept = (get_entries-Unchanged app k loaded).1 ∙ (db-read app k s ∙ same) in
        elim (Bool-cases (str_eq k scope)) [
          | inl e ↦
              let is : k ≡ scope = (str_eq_iff k scope).0 e in
              let held = published s (ap (λ db. G.first app scope db) same) in
              let given =
                get_entries-Holds faithful app scope name v secrets _ held (rw is at got) in
              dump_scopes-provides scopes _ res _ kept
                (inl
                  (At-insert k scope (Gives name v) secrets acc (λ _. given) (λ f. ground arith)))
                rest
          | inr e ↦
              dump_scopes-provides scopes _ res _ kept
                (elim asked [
                  | inl there ↦ inl (
                      At-insert k scope (Gives name v) secrets acc
                        (λ is. ground (arith, str_eq_refl scope)) (λ _. there))
                  | inr among ↦ inr (Among-other scope k scopes e among)
                ])
                rest
        ]

    dump_apps-provides :
        (apps scopes : List Str) (acc res : Dump) (s : StorageService G E)
        → s.db ≡ u.db
        → Among scope scopes
        → Dumps app scope name v acc ⊎ Among app apps
        → (dump_apps (sql_storage G E) apps scopes acc s).0 ≡ ok res
        → Dumps app scope name v res
    unfolding dump_apps
    dump_apps-provides [] scopes acc res s same here (inl there) h =
        let is : acc ≡ res = ground arith in rw (← is) there
    dump_apps-provides [] scopes acc res s same here (inr left) h = absurd left
    dump_apps-provides (a ∷ apps) scopes acc res s same here asked h =
        let (scope_map, done, rest) =
          >>=-eq-ok (dump_scopes (sql_storage G E) a scopes [])
            (λ scope_map. dump_apps (sql_storage G E) apps scopes (Dict.insert a scope_map acc)) s
            h in
        let kept = dump_scopes-IsReadOnly G E a scopes [] s ∙ same in
        elim (Bool-cases (str_eq a app)) [
          | inl e ↦
              let is : a ≡ app = (str_eq_iff a app).0 e in
              let given =
                dump_scopes-provides scopes [] scope_map s same (inr here) (rw is at done) in
              dump_apps-provides apps scopes _ res _ kept here
                (inl (
                  At-insert a app (At scope (Gives name v)) scope_map acc (λ _. given)
                    (λ f. ground arith)))
                rest
          | inr e ↦
              dump_apps-provides apps scopes _ res _ kept here
                (elim asked [
                  | inl there ↦ inl (
                      At-insert a app (At scope (Gives name v)) scope_map acc
                        (λ is. ground (arith, str_eq_refl app)) (λ _. there))
                  | inr among ↦ inr (Among-other app a apps e among)
                ])
                rest
        ]

  -- Once kaisave has saved a file with nothing twice (faithful encryptor, lawful table, sealed service, row
  -- of the scope not at version -1), a dump of that database that succeeds has each entry but the version,
  -- after one pass through JSON, if the table names its application and its scope is asked for.
  pub kaidump_run-save_all :
      (app scope name read_scopes : Str) (v : Value) (file : SecretsFile)
      (scopes : Dict (Dict Value)) (entries : Dict Value) (apps : List Str) (dump : Dump)
      (s t : StorageService G E)
      → IsTable G
      → IsFaithful E
      → IsSealed s
      → NotMinusOne app scope s
      → NodupKeys file × NodupKeys scopes × NodupKeys entries
      → Dict.lookup app file ≡ some scopes
      → Dict.lookup scope scopes ≡ some entries
      → Dict.lookup name entries ≡ some v
      → str_eq version_key name ≡ false
      → (save_all (sql_storage G E) file s).0 ≡ ok tt
      → t.db ≡ (save_all (sql_storage G E) file s).1.db
      → G.app_names t.db ≡ ok apps
      → Among app apps
      → Among scope (split b',' read_scopes)
      → (kaidump_run (sql_storage G E) read_scopes t).0 ≡ ok dump
      → Dumps app scope name (reload v) dump
  unfolding kaidump_run list_app_names
  kaidump_run-save_all app scope name read_scopes v file scopes entries apps dump s t table faithful
        sealed old nodup in_file here found ordinary h last named listed asked dumped =
      let published =
        save_all-Publishes table app scope name v file scopes entries s sealed old nodup in_file
          here found ordinary h in
      dump_apps-provides faithful app scope name (reload v) (save_all (sql_storage G E) file s).1
        published apps (split b',' read_scopes) [] dump t last asked (inr listed)
        (rw named at dumped)
