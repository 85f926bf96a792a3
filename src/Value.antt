-- ===== src/Value.antt =====
-- src/config.go: values decoded from YAML or JSON, and the tolerant reads of their fields.
-- A Go map is the list of its entries in the order in which `range` visits them, which Go leaves
-- open: the definitions take any order.
pub mod Order
pub mod Entries
use agy_identity_bridge.Base.{
  ℕ, Bool, true, false, not, ◌||◌, Option, none, some, List, [], ◌∷◌, eqb, if◌then◌else◌, is_nil,
  keep,
}
use agy_identity_bridge.Text.{Text, text, ◌==◌, trim_space, to_lower}
use agy_identity_bridge.Int64.{Int64, scan_int}

-- All that the program asks of a float64: `int(x)`, and whether it is zero.
pub record Float64 : Type 0 where
  pub truncated : Int64
  pub is_zero : Bool

-- The dynamic types that a decoder yields: `any_object` is a `map[any]any`.
mutual
  pub data Value : Type 0 where
    nil : Value
    boolean : Bool → Value
    int : Int64 → Value
    float64 : Float64 → Value
    string : Text → Value
    strings : List Text → Value
    slice : Items → Value
    object : Fields → Value
    any_object : Pairs → Value

  pub data Items : Type 0 where
    no_items : Items
    item : Value → Items → Items

  pub data Fields : Type 0 where
    no_fields : Fields
    field : Text → Value → Fields → Fields

  pub data Pairs : Type 0 where
    no_pairs : Pairs
    pair : Value → Value → Pairs → Pairs

abbrev pub Map : Type 0
Map = List (Text × Value)

abbrev pub entries : Fields → Map
entries no_fields = []
entries (field k v fs) = (k, v) ∷ entries fs

abbrev pub items : Items → List Value
items no_items = []
items (item v vs) = v ∷ items vs

-- The entries of a `map[any]any` whose keys are strings.
abbrev pub string_entry : Value → Value → Map → Map
string_entry (string k) v rest = (k, v) ∷ rest
string_entry _ v rest = rest

abbrev pub string_entries : Pairs → Map
string_entries no_pairs = []
string_entries (pair k v ps) = string_entry k v (string_entries ps)

-- `none` is a nil map.
unfoldable pub as_map : Value → Option Map
as_map (object fs) = some (entries fs)
as_map (any_object ps) = some (string_entries ps)
as_map _ = none

unfoldable pub as_slice : Value → Option (List Value)
as_slice (slice vs) = some (items vs)
as_slice _ = none

is_separator : ℕ → Bool
is_separator c = eqb c b'-' || eqb c b'_' || eqb c b' '

unfoldable pub normalized_map_key : Text → Text
unfolding is_separator
normalized_map_key value = keep (λ c. not (is_separator c)) (to_lower (trim_space value))

-- The loop of `mapValueByNormalizedKey`.
unfoldable pub find_normalized : Text → Map → Option Value
find_normalized target [] = none
find_normalized target ((key, value) ∷ raw) =
    if normalized_map_key key == target then some value else find_normalized target raw

unfoldable pub map_value_by_normalized_key : Map → Text → Option Value
unfolding find_normalized
map_value_by_normalized_key raw wanted = find_normalized (normalized_map_key wanted) raw

-- `x, ok := a; if !ok { x, ok = b }`
abbrev pub or_else {ℓ} : {A : Type ℓ} → Option A → Option A → Option A
or_else (some a) other = some a
or_else none other = other

unfoldable pub map_value : Map → List Text → Option Value
map_value raw [] = none
map_value raw (key ∷ keys) = or_else (map_value_by_normalized_key raw key) (map_value raw keys)

abbrev pub as_string : Value → Option Text
as_string (string s) = some (trim_space s)
as_string _ = none

abbrev pub bind {ℓ κ} : {A : Type ℓ} {B : Type κ} → Option A → (A → Option B) → Option B
bind none f = none
bind (some a) f = f a

abbrev pub or_zero {ℓ} : {A : Type ℓ} → A → Option A → A
or_zero z none = z
or_zero z (some a) = a

unfoldable pub string_value : Map → List Text → Option Text
string_value raw keys = bind (map_value raw keys) as_string

-- `x, _ := stringValue(…)`
abbrev pub string_or_empty : Map → List Text → Text
string_or_empty raw keys = or_zero [] (string_value raw keys)

pub bool_of_text : Text → Option Bool
bool_of_text s =
    if s == text "true" || s == text "yes" || s == text "on" || s == text "1"
    then some true
    else if s == text "false" || s == text "no" || s == text "off" || s == text "0"
    then some false
    else none

unfoldable pub as_bool : Value → Option Bool
unfolding bool_of_text
as_bool (boolean b) = some b
as_bool (string s) = bool_of_text (to_lower (trim_space s))
as_bool _ = none

unfoldable pub bool_value : Map → List Text → Option Bool
bool_value raw keys = bind (map_value raw keys) as_bool

abbrev pub bool_or_false : Map → List Text → Bool
bool_or_false raw keys = or_zero false (bool_value raw keys)

unfoldable pub as_int : Value → Option Int64
as_int (int n) = some n
as_int (float64 x) = some x.truncated
as_int (string s) = scan_int (trim_space s)
as_int _ = none

unfoldable pub int_value : Map → List Text → Option Int64
int_value raw keys = bind (map_value raw keys) as_int

abbrev pub int_or_zero : Map → List Text → Int64
int_or_zero raw keys = or_zero 0 (int_value raw keys)

-- Texts that are not blank, trimmed.
unfoldable pub trimmed_texts : List Text → List Text
trimmed_texts [] = []
trimmed_texts (s ∷ ss) =
    let rest = trimmed_texts ss in if is_nil (trim_space s) then rest else trim_space s ∷ rest

abbrev pub texts_of : List Value → List Text
texts_of [] = []
texts_of (string s ∷ vs) = s ∷ texts_of vs
texts_of (_ ∷ vs) = texts_of vs

unfoldable pub as_string_slice : Value → Option (List Text)
unfolding trimmed_texts
as_string_slice (slice vs) = some (trimmed_texts (texts_of (items vs)))
as_string_slice (strings ss) = some (trimmed_texts ss)
as_string_slice (string s) = some (trimmed_texts (s ∷ []))
as_string_slice _ = none

unfoldable pub string_slice_value : Map → List Text → Option (List Text)
string_slice_value raw keys = bind (map_value raw keys) as_string_slice

abbrev pub strings_or_none : Map → List Text → List Text
strings_or_none raw keys = or_zero [] (string_slice_value raw keys)

-- `for _, item := range asSlice(value)` over the maps among the items.
abbrev pub maps_of : List Value → List Map
maps_of [] = []
maps_of (v ∷ vs) = elim (as_map v) [ none ↦ maps_of vs | some m ↦ m ∷ maps_of vs ]

abbrev pub maps_in : Value → List Map
maps_in v = maps_of (or_zero [] (as_slice v))

-- `m[key] = value` on a map with texts as keys.
unfoldable pub put {ℓ} : {A : Type ℓ} → Text → A → List (Text × A) → List (Text × A)
put key value [] = (key, value) ∷ []
put key value ((k, v) ∷ out) =
    let rest = put key value out in if k == key then (k, value) ∷ out else (k, v) ∷ rest

-- `m[key]`, `none` for a key that is missing.
unfoldable pub get {ℓ} : {A : Type ℓ} → Text → List (Text × A) → Option A
get key [] = none
get key ((k, v) ∷ out) = if k == key then some v else get key out
