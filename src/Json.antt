-- ===== src/Json.antt =====
-- `serde_json::Value` and `serde_json::Map`: trees of values whose objects are ordered by key.
pub mod Laws
use systemd_monitoring_mcp.Base.{
  ℕ, suc, ◌^◌, Ordering, Bool, true, false, Option, none, some, List, [], ◌∷◌, String, ltb,
  if◌then◌else◌, ◌>>=◌,
}
use systemd_monitoring_mcp.Base.Int.{ℤ, pos, negsuc}
use systemd_monitoring_mcp.Text.{Text, text, text_eq, text_compare}

-- `serde_json::Number`: an unsigned 64-bit number, a negative 64-bit number or a float, which is
-- kept by the text that it prints as.
pub data Number : Type 0 where
  pos_int : ℕ → Number
  neg_int : ℕ → Number
  float : Text → Number

mutual
  pub data Json : Type 0 where
    null : Json
    bool : Bool → Json
    number : Number → Json
    string : Text → Json
    array : Items → Json
    object : Fields → Json

  pub data Items : Type 0 where
    nil : Items
    cons : Json → Items → Items

  pub data Fields : Type 0 where
    end : Fields
    field : Text → Json → Fields → Fields

-- `Value::as_str`, `as_bool`, `as_object`, `is_string` and `is_object`
abbrev pub as_str : Json → Option Text
as_str (string s) = some s
as_str _ = none

abbrev pub as_bool : Json → Option Bool
as_bool (bool b) = some b
as_bool _ = none

abbrev pub as_object : Json → Option Fields
as_object (object fs) = some fs
as_object _ = none

abbrev pub as_array : Json → Option Items
as_array (array xs) = some xs
as_array _ = none

abbrev pub is_string : Json → Bool
is_string (string s) = true
is_string _ = false

abbrev pub is_object : Json → Bool
is_object (object fs) = true
is_object _ = false

-- `Number::as_i64` and `Number::as_u64`
abbrev number_as_i64 : Number → Option ℤ
number_as_i64 (pos_int n) = if ltb n (2 ^ 63) then some (pos n) else none
number_as_i64 (neg_int n) = some (negsuc n)
number_as_i64 (float s) = none

abbrev number_as_u64 : Number → Option ℕ
number_as_u64 (pos_int n) = some n
number_as_u64 (neg_int n) = none
number_as_u64 (float s) = none

abbrev pub as_i64 : Json → Option ℤ
as_i64 (number n) = number_as_i64 n
as_i64 _ = none

abbrev pub as_u64 : Json → Option ℕ
as_u64 (number n) = number_as_u64 n
as_u64 _ = none

-- `json!(n)` of an integer
abbrev pub integer : ℤ → Json
integer (pos n) = number (pos_int n)
integer (negsuc n) = number (neg_int n)

-- `Map::get`
unfoldable pub get : Fields → Text → Option Json
unfolding text_eq
get end k = none
get (field j v m) k = if text_eq j k then some v else get m k

-- `Map::insert`: a value under a key that is there already is replaced.
unfoldable pub insert : Text → Json → Fields → Fields
unfolding text_compare
insert k v end = field k v end
insert k v (field j w m) = elim (text_compare k j) [
  | Ordering.lt ↦ field k v (field j w m)
  | Ordering.eq ↦ field k v m
  | Ordering.gt ↦ field j w (insert k v m)
]

-- `Value::get` with a key
unfoldable pub get_key : Json → Text → Option Json
unfolding get
get_key (object fs) k = get fs k
get_key _ k = none

-- `Map::from_iter`: later entries replace earlier ones.
unfoldable pub insert_all : Fields → List (Text × Json) → Fields
unfolding insert
insert_all fs [] = fs
insert_all fs ((k, v) ∷ rest) = insert_all (insert k v fs) rest

abbrev pub fields : List (Text × Json) → Fields
fields kvs = insert_all end kvs

-- `json!({ … })`
abbrev pub json_object : List (Text × Json) → Json
json_object kvs = object (fields kvs)

abbrev pub items : List Json → Items
items [] = nil
items (x ∷ xs) = cons x (items xs)

abbrev pub json_array : List Json → Json
json_array xs = array (items xs)

-- `json!` of an optional value: an absent one is null.
abbrev pub nullable : Option Json → Json
nullable none = null
nullable (some v) = v

abbrev pub literal : String → Json
literal s = string (text s)
