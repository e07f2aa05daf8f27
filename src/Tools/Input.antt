-- ===== src/Tools/Input.antt =====
-- ToolGateway._validate_input of src/incidentpilot/tools/gateway.py. The length of json.dumps and
-- the two list renderings of the messages are parameters. JSON numbers are natural here, so
-- "integer" and "number" admit the same values.
pub mod Valid
use incidentpilot.Base.{
  ℕ, String, ◌≡◌, Bool, true, false, ◌&&◌, ◌||◌, not, Option, none, some, List, [], ◌∷◌, ◌==◌,
  string_eq, if◌then◌else◌, ltb, leb, Result, ok, err, guard, value_error, type_error, Exception,
  ◌>>=◌, ◌>>◌, is_null,
}
use incidentpilot.Json.{Json, null, bool, num, str, arr, obj, Dict, end, field, get}
use incidentpilot.Enums.{contains}
use Prim.Native.String.{count, ◌++◌}

-- ToolSpec.input_schema: each property with the value of its "type", if it has one, and whether
-- "additionalProperties" is False.
pub record InputSchema : Type 0 where
  pub required : List String
  pub properties : List (String × Option String)
  pub closed : Bool

abbrev pub lookup : {A : Type 0} → String → List (String × A) → Option A
lookup k [] = none
lookup k ((j, a) ∷ xs) = if j == k then some a else lookup k xs

-- [k for k in required if k not in payload]
abbrev pub missing : List String → Dict → List String
missing [] payload = []
missing (k ∷ ks) payload =
    if is_null (get k payload) then k ∷ missing ks payload else missing ks payload

-- set(payload) - set(properties)
abbrev pub extras : {A : Type 0} → Dict → List (String × A) → List String
extras end properties = []
extras (field k v d) properties =
    if is_null (lookup k properties) then k ∷ extras d properties else extras d properties

abbrev pub is_empty : {A : Type 0} → List A → Bool
is_empty [] = true
is_empty (x ∷ xs) = false

abbrev pub is_str : Json → Bool
is_str (str s) = true
is_str _ = false

abbrev pub is_bool : Json → Bool
is_bool (bool b) = true
is_bool _ = false

-- A Python bool is an int.
abbrev pub is_int : Json → Bool
is_int (num n) = true
is_int (bool b) = true
is_int _ = false

-- `py_type is None or isinstance(value, py_type)`
abbrev pub has_type : Option String → Json → Bool
has_type none v = true
has_type (some t) v =
    if t == "string"
    then is_str v
    else if t == "integer" || t == "number"
    then is_int v
    else if t == "boolean"
    then is_bool v
    else true

abbrev pub numeric : Option String → Bool
numeric none = false
numeric (some t) = t == "integer" || t == "number"

abbrev pub length_limit : String → ℕ
length_limit key = if key == "query" then 8192 else 512

abbrev pub too_long : String → Json → Bool
too_long key (str s) = ltb (length_limit key) (count s)
too_long key _ = false

-- `1 <= value <= 50`, which raises on what is no number.
abbrev pub within_limit : Json → Result Bool
within_limit (num n) = ok (leb 1 n && leb n 50)
within_limit (bool b) = ok b
within_limit _ = err (type_error "'<=' not supported between instances")

abbrev pub check_limit : String → Json → Result (Unit {0})
check_limit key v = elim (key == "limit") [
  | true ↦ within_limit v >>= λ inside. guard inside (value_error "limit must be between 1 and 50")
  | false ↦ ok tt
]

-- The body of the loop, for a key that the schema names.
abbrev pub check_value : String → Option String → String → Json → Result (Unit {0})
check_value tool expected key v = do
  guard (has_type expected v) (value_error ("invalid type for " ++ tool ++ "." ++ key))
  guard (not (numeric expected && is_bool v)) (value_error "boolean is not a numeric tool argument")
  guard (not (too_long key v)) (value_error ("tool argument too long: " ++ key))
  check_limit key v

abbrev pub check_field : String → Option (Option String) → String → Json → Result (Unit {0})
check_field tool none key v = ok tt
check_field tool (some expected) key v = check_value tool expected key v

abbrev pub check_fields : String → List (String × Option String) → Dict → Result Dict
check_fields tool properties end = ok end
check_fields tool properties (field k v d) = do
  check_field tool (lookup k properties) k v
  rest ← check_fields tool properties d
  ok (field k v rest)

module _ (dump_length : Json → ℕ) (shown shown_sorted : List String → String) where
  unfoldable pub validate_input : String → InputSchema → Json → Result Dict
  validate_input tool s (obj payload) = do
    guard (not (ltb 16000 (dump_length (obj payload))))
        (value_error "invalid or oversized tool input")
    guard (is_empty (missing s.required payload)) (
        value_error
          ("missing required fields for " ++ tool ++ ": " ++ shown (missing s.required payload)))
    guard (not (s.closed && not (is_empty (extras payload s.properties)))) (
        value_error
          ("unexpected fields for " ++ tool ++ ": " ++ shown_sorted (extras payload s.properties)))
    if is_empty s.properties then ok payload else check_fields tool s.properties payload
  validate_input tool s _ = err (value_error "invalid or oversized tool input")
