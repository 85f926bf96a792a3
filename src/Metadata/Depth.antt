-- ===== src/Metadata/Depth.antt =====
-- How deep a decoded value is nested.
use agy_identity_bridge.Base.{
  ℕ, suc, ◌≤◌, ◌<◌, ◌≡◌, refl, ap, ◌∙◌, inl, inr, some, List, [], ◌∷◌, arith, Bool-cases,
  Option-cases,
}
use Prim.Native.Nat.{max}
use agy_identity_bridge.Text.{◌==◌, Text}
use agy_identity_bridge.Value.{
  Value, Items, Fields, Pairs, string, slice, object, any_object, no_items, item, no_fields, field,
  no_pairs, pair, Map, entries, string_entry, string_entries, as_map, map_value_by_normalized_key,
  find_normalized, normalized_map_key, map_value,
}

unfoldable mutual
  pub depth : Value → ℕ
  depth (slice vs) = suc (depth_items vs)
  depth (object fs) = suc (depth_fields fs)
  depth (any_object ps) = suc (depth_pairs ps)
  depth _ = 0

  pub depth_items : Items → ℕ
  depth_items no_items = 0
  depth_items (item v vs) = max (depth v) (depth_items vs)

  pub depth_fields : Fields → ℕ
  depth_fields no_fields = 0
  depth_fields (field k v fs) = max (depth v) (depth_fields fs)

  pub depth_pairs : Pairs → ℕ
  depth_pairs no_pairs = 0
  depth_pairs (pair k v ps) = max (depth v) (depth_pairs ps)

unfoldable pub depth_map : Map → ℕ
depth_map [] = 0
depth_map ((key, v) ∷ m) = max (depth v) (depth_map m)

depth_map-entries : (fs : Fields) → depth_map (entries fs) ≡ depth_fields fs
unfolding depth_map depth_fields
depth_map-entries no_fields = refl
depth_map-entries (field k v fs) = ap (max (depth v)) (depth_map-entries fs)

depth_map-string_entry :
    (k v : Value) (m : Map) → depth_map (string_entry k v m) ≤ max (depth v) (depth_map m)
unfolding depth_map
depth_map-string_entry (string k) v m = omega arith
depth_map-string_entry _ v m = omega arith

depth_map-string_entries : (ps : Pairs) → depth_map (string_entries ps) ≤ depth_pairs ps
unfolding depth_map depth_pairs
depth_map-string_entries no_pairs = omega arith
depth_map-string_entries (pair k v ps) =
    omega (arith, depth_map-string_entry k v (string_entries ps), depth_map-string_entries ps)

pub depth_map-as_map : (v : Value) {m : Map} → as_map v ≡ some m → depth_map m < depth v
unfolding as_map depth
depth_map-as_map (object fs) {m} e =
    let same : entries fs ≡ m = cc in omega (arith, ap depth_map same, depth_map-entries fs)
depth_map-as_map (any_object ps) {m} e =
    let same : string_entries ps ≡ m = cc in
    omega (arith, ap depth_map same, depth_map-string_entries ps)
depth_map-as_map _ e = cc

depth-find_normalized :
    (target : Text) (m : Map) {v : Value}
    → find_normalized target m ≡ some v
    → depth v ≤ depth_map m
unfolding find_normalized depth_map
depth-find_normalized target [] e = cc
depth-find_normalized target ((key, w) ∷ m) {v} e =
    elim (Bool-cases (normalized_map_key key == target)) [
      | inl hit ↦
          let same : some w ≡ some v = rw hit at e in
          let here : w ≡ v = cc in omega (arith, ap depth here)
      | inr miss ↦ omega (arith, depth-find_normalized target m {v = v} (rw miss at e))
    ]

pub depth-map_value :
    (m : Map) (keys : List Text) {v : Value} → map_value m keys ≡ some v → depth v ≤ depth_map m
unfolding map_value map_value_by_normalized_key
depth-map_value m [] e = cc
depth-map_value m (key ∷ keys) {v} e =
    elim (Option-cases (find_normalized (normalized_map_key key) m)) [
      | inl none_here ↦ depth-map_value m keys (rw none_here at e)
      | inr (w, found) ↦
          let same : some w ≡ some v = rw found at e in
          let here : w ≡ v = cc in depth-find_normalized _ m (found ∙ ap some here)
    ]
