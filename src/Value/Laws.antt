-- ===== src/Value/Laws.antt =====
-- Writing entries as JSON and reading them again.
use kaigara.Base.{◌≡◌, refl, ap, Option, none, some, [], ◌∷◌, Str, str_eq_iff, arith}
use kaigara.Base.Dict
use kaigara.Base.Dict.{Dict, NodupKeys}
use kaigara.Value.{
  Value, Json, j_null, j_bool, j_number, j_text, j_array, j_object, Elements, no_element, element,
  Members, no_member, member, to_json, of_json, to_elements, of_elements, to_members, of_members,
  marshal, unmarshal_into, reload,
}

mutual
  unfolding to_json of_json

  to_json-of_json_lem : (j : Json) → to_json (of_json j) ≡ j
  to_json-of_json_lem j_null = refl
  to_json-of_json_lem (j_bool b) = refl
  to_json-of_json_lem (j_number x) = refl
  to_json-of_json_lem (j_text s) = refl
  to_json-of_json_lem (j_array es) = ap j_array (to_elements-of_elements es)
  to_json-of_json_lem (j_object ms) = ap j_object (to_members-of_members ms)

  to_elements-of_elements : (es : Elements) → to_elements (of_elements es) ≡ es
  to_elements-of_elements no_element = refl
  to_elements-of_elements (element j es) = cc (to_json-of_json_lem j, to_elements-of_elements es)

  to_members-of_members : (ms : Members) → to_members (of_members ms) ≡ ms
  to_members-of_members no_member = refl
  to_members-of_members (member k j ms) = cc (to_json-of_json_lem j, to_members-of_members ms)

-- A JSON document that is decoded and encoded again is the same document.
pub to_json-of_json : (j : Json) → to_json (of_json j) ≡ j
to_json-of_json = to_json-of_json_lem

-- An entry changes at most once: what was read back from JSON survives every further round.
pub reload_idem : (v : Value) → reload (reload v) ≡ reload v
unfolding reload
reload_idem v = ap of_json (to_json-of_json (to_json v))

abbrev pub reloaded : Option Value → Option Value → Option Value
reloaded none base = base
reloaded (some v) base = some (reload v)

-- Unmarshalling what was marshalled from a map: each of its keys has its value as reloaded, and the
-- other keys what the target held.
pub lookup-unmarshal_into-marshal :
    (k : Str) (m base : Dict Value)
    → NodupKeys m
    → Dict.lookup k (unmarshal_into (marshal m) base)
      ≡ reloaded (Dict.lookup k m) (Dict.lookup k base)
unfolding unmarshal_into marshal Dict.lookup reload
lookup-unmarshal_into-marshal k [] base h = refl
lookup-unmarshal_into-marshal k ((j, v) ∷ m) base h = ground (
  arith,
  lookup-unmarshal_into-marshal k m (Dict.insert j (of_json (to_json v)) base) h.1,
  Dict.lookup-insert j k (of_json (to_json v)) base,
  str_eq_iff j k,
)
