-- ===== src/Value.antt =====
-- The dynamic values (`interface{}`) of configuration entries, and encoding/json on them.
-- A JSON document stands for its text: marshalling builds the document, unmarshalling reads it. Text is kept
-- byte by byte, as encoding/json does for UTF-8; it puts U+FFFD for other bytes.
pub mod Laws
use kaigara.Base.{◌≡◌, refl, ap, Bool, List, [], ◌∷◌, Str}
use kaigara.Base.Dict
use kaigara.Base.Dict.{Dict}
use kaigara.Base.Exec.{Error, bad_json, Fault, Outcome, ok, err}
use kaigara.Base.Int64.{ℤ}

-- A JSON number is an integer, or the text of another number.
pub data Number : Type 0 where
  integer : ℤ → Number
  literal : Str → Number

-- `json_number` is json.Number, as Vault's client decodes numbers; encoding/json decodes them to
-- `float64`, and yaml to `int` or `float64`.
mutual
  pub data Value : Type 0 where
    null : Value
    bool : Bool → Value
    text : Str → Value
    json_number : Str → Value
    int64 : ℤ → Value
    int : ℤ → Value
    float64 : Number → Value
    seq : Items → Value
    mapping : Fields → Value

  pub data Items : Type 0 where
    no_item : Items
    item : Value → Items → Items

  pub data Fields : Type 0 where
    no_field : Fields
    field : Str → Value → Fields → Fields

mutual
  pub data Json : Type 0 where
    j_null : Json
    j_bool : Bool → Json
    j_number : Number → Json
    j_text : Str → Json
    j_array : Elements → Json
    j_object : Members → Json

  pub data Elements : Type 0 where
    no_element : Elements
    element : Json → Elements → Elements

  pub data Members : Type 0 where
    no_member : Members
    member : Str → Json → Members → Members

-- json.Marshal, on a value.
unfoldable mutual
  pub to_json : Value → Json
  to_json null = j_null
  to_json (bool b) = j_bool b
  to_json (text s) = j_text s
  to_json (json_number s) = j_number (literal s)
  to_json (int64 n) = j_number (integer n)
  to_json (int n) = j_number (integer n)
  to_json (float64 x) = j_number x
  to_json (seq xs) = j_array (to_elements xs)
  to_json (mapping fs) = j_object (to_members fs)

  pub to_elements : Items → Elements
  to_elements no_item = no_element
  to_elements (item x xs) = element (to_json x) (to_elements xs)

  pub to_members : Fields → Members
  to_members no_field = no_member
  to_members (field k x fs) = member k (to_json x) (to_members fs)

-- json.Unmarshal into an `interface{}`.
unfoldable mutual
  pub of_json : Json → Value
  of_json j_null = null
  of_json (j_bool b) = bool b
  of_json (j_number x) = float64 x
  of_json (j_text s) = text s
  of_json (j_array es) = seq (of_elements es)
  of_json (j_object ms) = mapping (of_members ms)

  pub of_elements : Elements → Items
  of_elements no_element = no_item
  of_elements (element j es) = item (of_json j) (of_elements es)

  pub of_members : Members → Fields
  of_members no_member = no_field
  of_members (member k j ms) = field k (of_json j) (of_members ms)

-- json.Marshal, on a map[string]interface{}.
unfoldable pub marshal : Dict Value → Members
marshal [] = no_member
marshal ((k, v) ∷ m) = member k (to_json v) (marshal m)

-- json.Unmarshal of an object into a map that has entries already: keys of the object win, and of two
-- members with one key the later.
unfoldable pub unmarshal_into : Members → Dict Value → Dict Value
unmarshal_into no_member m = m
unmarshal_into (member k j ms) m = unmarshal_into ms (Dict.insert k (of_json j) m)

-- What an entry becomes when it is written and read again.
unfoldable pub reload : Value → Value
reload v = of_json (to_json v)
