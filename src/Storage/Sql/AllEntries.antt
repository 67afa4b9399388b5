-- ===== src/Storage/Sql/AllEntries.antt =====
-- GetEntries gives every entry that is held.
use kaigara.Base.{
  ◌≡◌, sym, ap, ◌∙◌, Option, some, List, [], ◌∷◌, Str, str_eq, str_eq_iff, str_eq_refl, ◌⊎◌, arith,
  Among, Bool-cases, inl, inr,
}
use kaigara.Base.Dict
use kaigara.Base.Dict.{Dict}
use kaigara.Base.Exec.{ok, >>=-eq-ok}
use kaigara.Value.{Value}
use kaigara.Encryptor.{Encryptor, IsFaithful}
use kaigara.Storage.Gorm.{Gorm}
use kaigara.Storage.Sql.{StorageService, entries_of, get_entry, get_names, get_entries}
use kaigara.Storage.Sql.Entries.{stored}
use kaigara.Storage.Sql.Holds.{Holds, get_entry-Holds, transfer}
use kaigara.Storage.Sql.Steps.{get_entry-Unchanged}

Among-keys :
    (k : Str) (m : Dict Value) (v : Value) → Dict.lookup k m ≡ some v → Among k (Dict.keys m)
unfolding Dict.lookup Dict.keys
Among-keys k [] v h = ground arith
Among-keys k ((j, w) ∷ m) v h = elim (Bool-cases (str_eq j k)) [
  | inl e ↦ inl (sym ((str_eq_iff j k).0 e))
  | inr e ↦ inr (Among-keys k m v (ground arith))
]

module _ {G : Gorm} {E : Encryptor} (faithful : IsFaithful E) where
  get_entry-keeps :
      (app scope name k : Str) (v : Value) (s : StorageService G E)
      → Holds app scope name v s
      → Holds app scope name v (get_entry app scope k s).1
  unfolding stored
  get_entry-keeps app scope name k v s held =
      transfer app scope name v s _
        (ap (λ ds. Dict.lookup name (entries_of app scope ds))
          (get_entry-Unchanged app scope k s).0)
        held

  -- A name that is asked for, or was, is in the result with its value.
  get_names-lookup :
      (app scope name : Str) (v : Value) (ks : List Str) (acc res : Dict (Option Value))
      (s : StorageService G E)
      → Holds app scope name v s
      → (Dict.lookup name acc ≡ some (some v)) ⊎ Among name ks
      → (get_names app scope ks acc s).0 ≡ ok res
      → Dict.lookup name res ≡ some (some v)
  unfolding get_names
  get_names-lookup app scope name v [] acc res s held (inl there) h = ground arith
  get_names-lookup app scope name v [] acc res s held (inr none_left) h = absurd none_left
  get_names-lookup app scope name v (k ∷ ks) acc res s held asked h =
      let (val, got, rest) =
        >>=-eq-ok (get_entry app scope k) (λ val. get_names app scope ks (Dict.insert k val acc)) s
          h in
      let t = (get_entry app scope k s).1 in
      let next : (Dict.lookup name (Dict.insert k val acc) ≡ some (some v)) ⊎ Among name ks =
        elim (Bool-cases (str_eq k name)) [
          | inl e ↦
              let is : k ≡ name = (str_eq_iff k name).0 e in
              let given = get_entry-Holds app scope name v s faithful held in
              let same : val ≡ some v = ground arith in
              inl (rw (same, is) (Dict.lookup-insert_self name (some v) acc))
          | inr e ↦ elim asked [
            | inl there ↦ inl (Dict.lookup-insert k name val acc ∙ rw e there)
            | inr among ↦
                inr (elim among [ inl same ↦ ground (arith, str_eq_refl k) | inr later ↦ later ])
          ]
        ] in
      get_names-lookup app scope name v ks _ res t (get_entry-keeps app scope name k v s held) next
        rest

  pub get_entries-Holds :
      (app scope name : Str) (v : Value) (res : Dict (Option Value)) (s : StorageService G E)
      → Holds app scope name v s
      → (get_entries app scope s).0 ≡ ok res
      → Dict.lookup name res ≡ some (some v)
  unfolding get_entries stored
  get_entries-Holds app scope name v res s held h =
      get_names-lookup app scope name v _ [] res s held
        (inr (Among-keys name _ held.raw held.is_stored)) h
