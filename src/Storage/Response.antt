-- ===== src/Storage/Response.antt =====
-- pkg/storage/vault/vault.go: what it reads from the responses of Vault, and sends.
use kaigara.Base.{
  Bool, true, false, Option, none, some, List, [], ◌∷◌, Str, bytes, ◌==◌, if◌then◌else◌,
}
use kaigara.Base.Dict
use kaigara.Base.Dict.{Dict}
use kaigara.Base.Exec.{Outcome, ok, err, panic, bad_assertion, bad_number}
use kaigara.Base.Int64.{ℤ, negsuc, parse_int64}
use kaigara.Value.{
  Value, null, text, json_number, seq, mapping, Items, no_item, item, Fields, no_field, field,
}

-- A map[string]interface{} inside a value, and one made of it.
unfoldable pub entries_of_fields : Fields → Dict Value
entries_of_fields no_field = []
entries_of_fields (field k v fs) = (k, v) ∷ entries_of_fields fs

unfoldable pub fields_of_entries : Dict Value → Fields
fields_of_entries [] = no_field
fields_of_entries ((k, v) ∷ m) = field k v (fields_of_entries m)

-- A field of a response, where nil is the same as no field.
abbrev pub not_nil : Option Value → Option Value
not_nil (some null) = none
not_nil v = v

abbrev pub fields_of_response : Option (Dict Value) → Dict Value
fields_of_response none = []
fields_of_response (some fields) = fields

-- The scope of a map as it is sent to Vault.
abbrev pub sent_data : Option (Dict Value) → Value
sent_data none = null
sent_data (some m) = mapping (fields_of_entries m)

-- strings.ReplaceAll(s, "/", "")
unfoldable pub without_slashes : Str → Str
without_slashes [] = []
without_slashes (c ∷ s) = let rest = without_slashes s in if c == b'/' then rest else c ∷ rest

unfoldable pub app_names_of : Items → Outcome (List Str)
app_names_of no_item = ok []
app_names_of (item (text s) xs) = elim (app_names_of xs) [
  | ok names ↦ ok (without_slashes s ∷ names)
  | err e ↦ err e
  | panic p ↦ panic p
]
app_names_of (item _ xs) = panic bad_assertion

-- The response to the listing of names. An empty Data is taken for a nil one.
abbrev pub listed : Option (Dict Value) → Outcome (List Str)
listed none = ok []
listed (some []) = ok []
listed (some (f ∷ fields)) = elim (Dict.lookup (bytes "keys") (f ∷ fields)) [
  | some (seq xs) ↦ app_names_of xs
  | some _ ↦ panic bad_assertion
  | none ↦ panic bad_assertion
]

-- A version, -1 where there is none: `v.(json.Number).Int64()`
unfoldable pub version_of : Option Value → Outcome ℤ
version_of none = ok (negsuc 0)
version_of (some null) = ok (negsuc 0)
version_of (some (json_number s)) = elim (parse_int64 s) [ none ↦ err bad_number | some n ↦ ok n ]
version_of (some _) = panic bad_assertion

-- secret != nil
abbrev pub is_some : Option (Dict Value) → Bool
is_some none = false
is_some (some _) = true
