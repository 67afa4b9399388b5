-- ===== src/Storage/Sql/Sealed.antt =====
-- Secrets are stored encrypted: what it means for the entries in memory and for the rows, and how
-- the operations on maps keep it.
use kaigara.Base.{
  ◌≡◌, refl, true, false, Option, none, some, Str, [], ◌∷◌, arith, str_eq, str_eq_iff, str_eq_refl,
  Bool-cases, inl, inr,
}
use kaigara.Base.Dict
use kaigara.Base.Dict.{Dict, NodupKeys, insert-NodupKeys}
use kaigara.Base.Exec.{ok}
use kaigara.Base.Int64.{ℤ}
use kaigara.Value.{
  Value, text, int64, Json, j_text, j_object, Members, no_member, member, to_json, of_json, marshal,
  unmarshal_into,
}
use kaigara.Encryptor.{Encryptor}
use kaigara.Storage.Sql.{is_encrypted, version_key, load_row, fresh_entries}

module _ (E : Encryptor) where
  -- The encryptor has returned this text for some plaintext.
  pub record Issued (c : Str) : Type 0 where
    pub plaintext : Str
    pub app : Str
    pub world : E.World
    pub returned : (E.encrypt plaintext app world).0 ≡ ok c

  abbrev pub IssuedValue : Value → Type 0
  IssuedValue v = (c : Str) × (v ≡ text c) × Issued c

  abbrev pub IssuedJson : Json → Type 0
  IssuedJson j = (c : Str) × (j ≡ j_text c) × Issued c

  -- No key stands twice, and each entry to be encrypted is a text from the encryptor.
  abbrev pub Sealed : Str → Dict Value → Type 0
  Sealed scope [] = Unit
  Sealed scope ((k, v) ∷ m) =
      (is_encrypted scope k ≡ true → IssuedValue v) × (Dict.lookup k m ≡ none) × Sealed scope m

  -- The same of the members of a JSON object, where a key may stand twice.
  abbrev pub SealedMembers : Str → Members → Type 0
  SealedMembers scope no_member = Unit
  SealedMembers scope (member k j ms) =
      (is_encrypted scope k ≡ true → IssuedJson j) × SealedMembers scope ms

  pub Sealed-NodupKeys : (scope : Str) (m : Dict Value) → Sealed scope m → NodupKeys m
  Sealed-NodupKeys scope [] h = tt
  Sealed-NodupKeys scope ((k, v) ∷ m) h = (h.1, Sealed-NodupKeys scope m h.2)

  pub insert-Sealed :
      (scope k : Str) (v : Value) (m : Dict Value)
      → (is_encrypted scope k ≡ true → IssuedValue v)
      → Sealed scope m
      → Sealed scope (Dict.insert k v m)
  unfolding Dict.insert Dict.lookup
  insert-Sealed scope k v [] p h = (p, refl, tt)
  insert-Sealed scope k v ((j, w) ∷ m) p h = elim (Bool-cases (str_eq j k)) [
    | inl e ↦ rw e (p, rw (← (str_eq_iff j k).0 e) h.1, h.2)
    | inr e ↦ rw e (
      h.0,
      rw (Dict.lookup-insert) (ground (arith, str_eq_iff j k, str_eq_iff k j, h.1)),
      insert-Sealed scope k v m p h.2,
    )
  ]

  pub delete-Sealed :
      (scope k : Str) (m : Dict Value) → Sealed scope m → Sealed scope (Dict.delete k m)
  unfolding Dict.delete
  delete-Sealed scope k [] h = tt
  delete-Sealed scope k ((j, w) ∷ m) h = elim (Bool-cases (str_eq j k)) [
    | inl e ↦ rw e (delete-Sealed scope k m h.2)
    | inr e ↦ rw e (h.0, ground (arith, Dict.lookup-delete k j m, h.1), delete-Sealed scope k m h.2)
  ]

  pub marshal-Sealed :
      (scope : Str) (m : Dict Value) → Sealed scope m → SealedMembers scope (marshal m)
  unfolding marshal to_json
  marshal-Sealed scope [] h = tt
  marshal-Sealed scope ((k, v) ∷ m) h =
      (λ e. let (c, same, issued) = h.0 e in (c, rw same, issued), marshal-Sealed scope m h.2)

  pub unmarshal_into-Sealed :
      (scope : Str) (ms : Members) (m : Dict Value)
      → SealedMembers scope ms
      → Sealed scope m
      → Sealed scope (unmarshal_into ms m)
  unfolding unmarshal_into of_json
  unmarshal_into-Sealed scope no_member m h s = s
  unmarshal_into-Sealed scope (member k j ms) m h s =
      unmarshal_into-Sealed scope ms (Dict.insert k (of_json j) m) h.1 (
        insert-Sealed scope k (of_json j) m
          (λ e. let (c, same, issued) = h.0 e in (c, rw same, issued)) s)

  -- An entry under the key of the version is not encrypted.
  version-plain : (scope : Str) → is_encrypted scope version_key ≡ false
  unfolding is_encrypted
  version-plain scope = ground (arith, str_eq_refl version_key)

  pub insert_version-Sealed :
      (scope : Str) (n : ℤ) (m : Dict Value)
      → Sealed scope m
      → Sealed scope (Dict.insert version_key (int64 n) m)
  insert_version-Sealed scope n m h =
      insert-Sealed scope version_key (int64 n) m (λ e. ground (arith, version-plain scope)) h

  pub fresh_entries-Sealed : (scope : Str) → Sealed scope fresh_entries
  unfolding Dict.lookup
  fresh_entries-Sealed scope = (λ e. ground (arith, version-plain scope), refl, tt)

  -- What a row of the scope holds is sealed.
  abbrev pub SealedColumn : Str → Option Json → Type 0
  SealedColumn scope none = Unit
  SealedColumn scope (some (j_object ms)) = SealedMembers scope ms
  SealedColumn scope (some _) = Unit

  pub load_row-Sealed :
      (scope : Str) (column : Option Json) (version : ℤ) {m : Dict Value}
      → SealedColumn scope column
      → load_row column version ≡ ok m
      → Sealed scope m
  unfolding load_row
  load_row-Sealed scope none version h e = ground arith
  load_row-Sealed scope (some (j_object ms)) version {m} h e =
      let same : Dict.insert version_key (int64 version) (unmarshal_into ms fresh_entries) ≡ m =
        cc e in
      rw (← same) (
        insert_version-Sealed scope version _
          (unmarshal_into-Sealed scope ms fresh_entries h (fresh_entries-Sealed scope)))
  load_row-Sealed scope (some _) version h e = ground arith
