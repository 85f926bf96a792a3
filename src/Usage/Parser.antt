-- ===== src/Usage/Parser.antt =====
-- src/usage.go: the totals in the body of an answer, JSON or the text of an event stream, and their
-- observation. The search of a decoded value is on fuel; the depth of the value is enough.
pub mod Fuel
pub mod Lines
use agy_identity_bridge.Value.{Value, Map, as_map, as_slice, map_value, or_else, or_zero, bind}
use agy_identity_bridge.Headers.{Headers}
use agy_identity_bridge.Metadata.Depth.{depth}
use agy_identity_bridge.Usage.{
  UsageTotals, UsageRecord, no_totals, merge_usage_totals, usage_totals_from_usage_object,
  parse_usage_totals_from_headers, record_usage_observation,
}
use agy_identity_bridge.Usage.Page.{canonical_usage_provider_name}
use agy_identity_bridge.Base.{
  ℕ, zero, suc, ◌||◌, Option, none, some, List, [], ◌∷◌, map, if◌then◌else◌, is_nil,
}
use agy_identity_bridge.Text.{Text, text, ◌==◌, trim_space, trim_prefix, split}

abbrev pub usage_keys : List Text
usage_keys =
    text "usage" ∷ text "result" ∷ text "data" ∷ text "response" ∷ text "body" ∷ text "payload" ∷ []

-- One round of the loops that add totals up: what has been found, and what an item gives.
unfoldable pub merge_found : Option UsageTotals → Option UsageTotals → Option UsageTotals
unfolding merge_usage_totals
merge_found combined none = combined
merge_found combined (some totals) = some (merge_usage_totals (or_zero no_totals combined) totals)

unfoldable pub merge_all : Option UsageTotals → List (Option UsageTotals) → Option UsageTotals
unfolding merge_found
merge_all combined [] = combined
merge_all combined (found ∷ more) = merge_all (merge_found combined found) more

module _ (recurse : Value → Option UsageTotals) where
  -- The loop over the keys under which totals may be nested.
  abbrev pub find_usage : List Text → Map → Option UsageTotals
  find_usage [] m = none
  find_usage (key ∷ keys) m = or_else (bind (map_value m (key ∷ [])) recurse) (find_usage keys m)

  abbrev pub in_slice : Option (List Value) → Option UsageTotals
  in_slice none = none
  in_slice (some values) = merge_all none (map recurse values)

  -- The body of the search, for a value and its map.
  abbrev pub in_value : Value → Option Map → Option UsageTotals
  in_value value none = in_slice (as_slice value)
  in_value value (some raw) =
      or_else (usage_totals_from_usage_object raw) (find_usage usage_keys raw)

unfoldable pub usage_at : ℕ → Value → Option UsageTotals
usage_at zero value = none
usage_at (suc fuel) value = in_value (usage_at fuel) value (as_map value)

unfoldable pub usage_totals_from_value : Value → Option UsageTotals
unfolding usage_at
usage_totals_from_value value = usage_at (suc (depth value)) value

-- A line of an event stream, `[]` for one that is skipped.
unfoldable pub usage_line : Text → Text
usage_line line =
    let l = trim_space line in
    let payload = trim_space (trim_prefix l (text "data:")) in
    if is_nil l || l == text "[DONE]" then [] else if payload == text "[DONE]" then [] else payload

-- `json.Unmarshal` into any value.
module _ (unmarshal : Text → Option Value) where
  unfoldable pub parse_usage_totals_from_json : Text → Option UsageTotals
  unfolding usage_totals_from_value
  parse_usage_totals_from_json raw = bind (unmarshal raw) usage_totals_from_value

  abbrev pub line_totals : Text → Option UsageTotals
  line_totals line = if is_nil line then none else parse_usage_totals_from_json line

  unfoldable pub parse_usage_totals_from_stream_text : Text → Option UsageTotals
  unfolding parse_usage_totals_from_json usage_line
  parse_usage_totals_from_stream_text raw =
      merge_all none (map (λ line. line_totals (usage_line line)) (split 10 raw))

  unfoldable pub parse_usage_totals_from_payload : Text → Option UsageTotals
  unfolding parse_usage_totals_from_stream_text
  parse_usage_totals_from_payload raw =
      let trimmed = trim_space raw in
      if is_nil trimmed
      then none
      else or_else (parse_usage_totals_from_json trimmed)
          (parse_usage_totals_from_stream_text trimmed)

  unfoldable pub parse_usage_observation : Text → Headers → Option UsageTotals
  unfolding parse_usage_totals_from_payload parse_usage_totals_from_headers
  parse_usage_observation body headers =
      or_else (parse_usage_totals_from_payload body) (parse_usage_totals_from_headers headers)

  abbrev pub record_found :
      Text → UsageRecord → Option UsageTotals → List UsageRecord → List UsageRecord
  record_found now obs none records = records
  record_found now obs (some totals) records =
      record_usage_observation now
        (record obs {
          at = now;
          provider = canonical_usage_provider_name obs.provider;
          totals = totals;
        })
        records

  -- The five texts of a call are the fields of a record without its time and totals.
  unfoldable pub record_usage_from_executor_response :
      Text → Text → Headers → UsageRecord → List UsageRecord → List UsageRecord
  unfolding parse_usage_observation record_usage_observation
  record_usage_from_executor_response now body headers call records =
      record_found now call (parse_usage_observation body headers) records
