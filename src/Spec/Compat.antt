-- ===== src/Spec/Compat.antt =====
-- src/providerspec.go: the readers of one openai-compatibility section.
use agy_identity_bridge.Base.{◌&&◌, ◌||◌, Option, none, some, List, [], ◌∷◌, if◌then◌else◌, is_nil}
use agy_identity_bridge.Text.{Text, text, trim_space}
use agy_identity_bridge.Value.{
  Value, string, Map, as_map, as_slice, map_value, string_or_empty, bool_or_false, int_or_zero,
  strings_or_none, maps_of, or_zero, put,
}
use agy_identity_bridge.Unique.{unique_strings}
use agy_identity_bridge.Spec.{ThinkingSpec, ModelSpec}

-- The maps among the items of a value that may be missing.
abbrev pub section_maps : Option Value → List Map
section_maps none = []
section_maps (some raw) = maps_of (or_zero [] (as_slice raw))

abbrev pub section_map : Option Value → Option Map
section_map none = none
section_map (some raw) = as_map raw

-- A nil root has no entries.
unfoldable pub open_ai_compat_entries : Option Map → List Map
open_ai_compat_entries none = []
open_ai_compat_entries (some root) =
    section_maps (map_value root (text "openai-compatibility" ∷ text "openai_compatibility" ∷ []))

-- The loop over the key entries.
abbrev pub keys_of : List Map → List Text
keys_of [] = []
keys_of (m ∷ ms) =
    let key = string_or_empty m (text "api-key" ∷ text "api_key" ∷ text "key" ∷ []) in
    let rest = keys_of ms in if is_nil key then rest else key ∷ rest

unfoldable pub compat_api_keys : Map → List Text
compat_api_keys provider = unique_strings (
    keys_of
      (section_maps (map_value provider (text "api-key-entries" ∷ text "api_key_entries" ∷ []))))

-- One entry of the map of headers: only strings are kept, and no blank name.
abbrev pub put_compat_header : Text → Value → List (Text × Text) → List (Text × Text)
put_compat_header key (string s) out =
    if is_nil (trim_space key) || is_nil s then out else put (trim_space key) (trim_space s) out
put_compat_header key _ out = out

abbrev pub put_compat_headers : Map → List (Text × Text) → List (Text × Text)
put_compat_headers [] out = out
put_compat_headers ((key, value) ∷ raw) out =
    put_compat_headers raw (put_compat_header key value out)

abbrev pub headers_of : Option Map → List (Text × Text)
headers_of none = []
headers_of (some m) = put_compat_headers m []

unfoldable pub compat_headers : Map → List (Text × Text)
unfolding put
compat_headers provider = headers_of (section_map (map_value provider (text "headers" ∷ [])))

unfoldable pub compat_thinking : Option Map → Option ThinkingSpec
compat_thinking none = none
compat_thinking (some m) = some (record {
  min = int_or_zero m (text "min" ∷ []);
  max = int_or_zero m (text "max" ∷ []);
  zero_allowed = bool_or_false m (text "zero-allowed" ∷ text "zero_allowed" ∷ []);
  dynamic_allowed = bool_or_false m (text "dynamic-allowed" ∷ text "dynamic_allowed" ∷ []);
  levels = strings_or_none m (text "levels" ∷ []);
})

unfoldable pub compat_model : Map → ModelSpec
unfolding compat_thinking
compat_model m = record {
  name = string_or_empty m (text "name" ∷ []);
  alias = string_or_empty m (text "alias" ∷ []);
  image = bool_or_false m (text "image" ∷ []);
  input_modalities = strings_or_none m (text "input-modalities" ∷ text "input_modalities" ∷ []);
  output_modalities = strings_or_none m (text "output-modalities" ∷ text "output_modalities" ∷ []);
  thinking = compat_thinking (section_map (map_value m (text "thinking" ∷ [])));
}

-- A model with neither name nor alias is left out.
abbrev pub models_of : List Map → List ModelSpec
models_of [] = []
models_of (m ∷ ms) =
    let model = compat_model m in
    let rest = models_of ms in
    if is_nil model.name && is_nil model.alias then rest else model ∷ rest

unfoldable pub compat_models : Map → List ModelSpec
unfolding compat_model
compat_models provider = models_of (section_maps (map_value provider (text "models" ∷ [])))
