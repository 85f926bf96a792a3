-- ===== src/Metadata.antt =====
-- src/providers.go `metadataString`: a string under one of the keys, or in a nested section.
-- The recursion is on fuel; the depth of the metadata is enough.
pub mod Depth
pub mod Fuel
use agy_identity_bridge.Base.{
  ℕ, zero, suc, Option, none, some, List, [], ◌∷◌, if◌then◌else◌, is_nil,
}
use agy_identity_bridge.Text.{Text, text, trim_space}
use agy_identity_bridge.Value.{Value, string, Map, as_map, map_value}
use agy_identity_bridge.Metadata.Depth.{depth_map}

abbrev pub sections : List Text
sections = text "provider" ∷ text "auth" ∷ text "selected_auth" ∷ text "selected-auth" ∷ []

module _ (recurse : Map → Text) where
  abbrev pub in_map : Option Map → Text
  in_map none = []
  in_map (some m) = recurse m

  -- The body for one nested key: nothing where there is no map.
  abbrev pub nested_value : Option Value → Text
  nested_value none = []
  nested_value (some v) = in_map (as_map v)

  abbrev pub nested : List Text → Map → Text
  nested [] m = []
  nested (key ∷ keys) m =
      let value = nested_value (map_value m (key ∷ [])) in
      if is_nil value then nested keys m else value

  abbrev pub own_or_nested : Option Value → Map → Text
  own_or_nested (some (string s)) m = trim_space s
  own_or_nested _ m = nested sections m

unfoldable pub metadata_at : ℕ → Map → List Text → Text
metadata_at zero m keys = []
metadata_at (suc fuel) m keys =
    own_or_nested (λ inner. metadata_at fuel inner keys) (map_value m keys) m

unfoldable pub metadata_string : Map → List Text → Text
unfolding metadata_at
metadata_string m keys = metadata_at (suc (depth_map m)) m keys
