-- ===== src/Metadata/Fuel.antt =====
-- The depth of the metadata is enough fuel, so `metadata_string` meets the source's own equation.
use agy_identity_bridge.Base.{
  ℕ, zero, suc, ◌≤◌, ◌<◌, ◌≡◌, refl, inl, inr, Option, none, some, List, [], ◌∷◌, arith,
  Option-cases,
}
use agy_identity_bridge.Text.{Text}
use agy_identity_bridge.Value.{Value, string, Map, as_map, map_value}
use agy_identity_bridge.Metadata.{
  sections, nested_value, nested, own_or_nested, metadata_at, metadata_string,
}
use agy_identity_bridge.Metadata.Depth.{depth, depth_map, depth_map-as_map, depth-map_value}

module _ (r r' : Map → Text) (m : Map)
    (same : (inner : Map) → depth_map inner < depth_map m → r inner ≡ r' inner) where
  nested_value-cong :
      (o : Option Value)
      → ((v : Value) → o ≡ some v → depth v ≤ depth_map m)
      → nested_value r o ≡ nested_value r' o
  nested_value-cong none h = refl
  nested_value-cong (some v) h = elim (Option-cases (as_map v)) [
    | inl e ↦ rw e
    | inr (inner, e) ↦ rw e (same inner (omega (arith, depth_map-as_map v e, h v refl)))
  ]

  nested-cong : (keys : List Text) → nested r keys m ≡ nested r' keys m
  nested-cong [] = refl
  nested-cong (key ∷ keys) =
      rw (nested_value-cong (map_value m (key ∷ [])) (λ v e. depth-map_value m (key ∷ []) e))
        (ground (arith, nested-cong keys))

  own_or_nested-cong : (o : Option Value) → own_or_nested r o m ≡ own_or_nested r' o m
  own_or_nested-cong none = nested-cong sections
  own_or_nested-cong (some (string s)) = refl
  own_or_nested-cong (some _) = nested-cong sections

metadata_at-fuel :
    (f g : ℕ) (m : Map) (keys : List Text)
    → depth_map m < f
    → depth_map m < g
    → metadata_at f m keys ≡ metadata_at g m keys
unfolding metadata_at
metadata_at-fuel zero g m keys h k = elim h [ ]
metadata_at-fuel (suc f) zero m keys h k = elim k [ ]
metadata_at-fuel (suc f) (suc g) m keys h k =
    own_or_nested-cong (λ inner. metadata_at f inner keys) (λ inner. metadata_at g inner keys) m
      (λ inner lt. metadata_at-fuel f g inner keys (omega arith) (omega arith)) (map_value m keys)

-- `metadataString` ends on every metadata, and its answer is what its body says of the answers for
-- the nested sections.
pub metadata_string_lem :
    (m : Map) (keys : List Text)
    → metadata_string m keys
      ≡ own_or_nested (λ inner. metadata_string inner keys) (map_value m keys) m
unfolding metadata_string metadata_at
metadata_string_lem m keys =
    own_or_nested-cong (λ inner. metadata_at (depth_map m) inner keys)
      (λ inner. metadata_at (suc (depth_map inner)) inner keys) m
      (λ inner lt.
        metadata_at-fuel (depth_map m) (suc (depth_map inner)) inner keys lt (omega arith))
      (map_value m keys)
