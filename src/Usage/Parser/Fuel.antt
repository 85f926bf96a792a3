-- ===== src/Usage/Parser/Fuel.antt =====
-- The depth of a value is enough fuel for the search of its totals.
use agy_identity_bridge.Value.{
  Value, Items, no_items, item, items, slice, Map, as_map, as_slice, map_value, bind, or_else,
}
use agy_identity_bridge.Metadata.Depth.{
  depth, depth_items, depth_map, depth_map-as_map, depth-map_value,
}
use agy_identity_bridge.Usage.{UsageTotals, usage_totals_from_usage_object}
use agy_identity_bridge.Usage.Parser.{
  find_usage, in_slice, in_value, usage_at, usage_totals_from_value, merge_all, usage_keys,
}
use agy_identity_bridge.Base.{
  ℕ, zero, suc, ◌≤◌, ◌<◌, ◌≡◌, refl, ap, ap₂, inl, inr, Option, none, some, List, [], ◌∷◌, map,
  arith, Option-cases,
}
use agy_identity_bridge.Text.{Text}

module _ (r r' : Value → Option UsageTotals) (bound : ℕ)
    (same : (inner : Value) → depth inner < bound → r inner ≡ r' inner) where
  map-cong : (vs : Items) → depth_items vs < bound → map r (items vs) ≡ map r' (items vs)
  unfolding depth_items
  map-cong no_items h = refl
  map-cong (item v vs) h = ap₂ (λ a b. a ∷ b) (same v (omega arith)) (map-cong vs (omega arith))

  in_slice-cong : (v : Value) → depth v ≤ bound → in_slice r (as_slice v) ≡ in_slice r' (as_slice v)
  unfolding as_slice depth
  in_slice-cong (slice vs) h = ap (merge_all none) (map-cong vs (omega arith))
  in_slice-cong _ h = refl

  bind-cong :
      (o : Option Value) → ((v : Value) → o ≡ some v → depth v < bound) → bind o r ≡ bind o r'
  bind-cong none h = refl
  bind-cong (some v) h = same v (h v refl)

  find_usage-cong :
      (m : Map) (keys : List Text)
      → depth_map m < bound
      → find_usage r keys m ≡ find_usage r' keys m
  find_usage-cong m [] h = refl
  find_usage-cong m (key ∷ keys) h =
      ap₂ or_else
        (bind-cong (map_value m (key ∷ []))
          (λ v e. omega (arith, depth-map_value m (key ∷ []) e, h)))
        (find_usage-cong m keys h)

  in_value-cong : (v : Value) → depth v ≤ bound → in_value r v (as_map v) ≡ in_value r' v (as_map v)
  in_value-cong v h = elim (Option-cases (as_map v)) [
    | inl e ↦ rw e (in_slice-cong v h)
    | inr (m, e) ↦ rw e (
        ap (or_else (usage_totals_from_usage_object m))
          (find_usage-cong m usage_keys (omega (arith, depth_map-as_map v e, h))))
  ]

usage_at-fuel : (f g : ℕ) (v : Value) → depth v < f → depth v < g → usage_at f v ≡ usage_at g v
unfolding usage_at
usage_at-fuel zero g v h k = elim h [ ]
usage_at-fuel (suc f) zero v h k = elim k [ ]
usage_at-fuel (suc f) (suc g) v h k =
    in_value-cong (usage_at f) (usage_at g) (depth v)
      (λ inner lt. usage_at-fuel f g inner (omega arith) (omega arith)) v (omega arith)

-- `usageTotalsFromValue` ends on every decoded value, and its answer is what its body says of the
-- answers for the items of a list and for the sections of a map.
pub usage_totals_from_value_lem :
    (v : Value) → usage_totals_from_value v ≡ in_value usage_totals_from_value v (as_map v)
unfolding usage_totals_from_value usage_at
usage_totals_from_value_lem v =
    in_value-cong (usage_at (depth v)) (λ inner. usage_at (suc (depth inner)) inner) (depth v)
      (λ inner lt. usage_at-fuel (depth v) (suc (depth inner)) inner lt (omega arith)) v
      (omega arith)
