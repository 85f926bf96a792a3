-- ===== src/Examples/Requests.antt =====
-- Witnesses about routes, bodies, the registry, configuration documents and usage.
use agy_identity_bridge.Base.{◌∙◌}
use agy_identity_bridge.Base.{sym}
use agy_identity_bridge.Base.{arith}
use agy_identity_bridge.Base.{if_cases}
use agy_identity_bridge.Base.{
  ◌≡◌, refl, ◌↔◌, ◌⊎◌, true, false, Option, none, List, [], ◌∷◌, ◌++◌, reverse, if◌then◌else◌, any,
}
use agy_identity_bridge.Text.{Text, text, ◌==◌, trim_space, to_lower}
use mathlib.Core.List.{Memᴰ}
use agy_identity_bridge.Value.{Map}
use agy_identity_bridge.Registry.{
  MatchedProviderRecord, resolve_record_by_model, recent_dashboard_events,
}
use agy_identity_bridge.Intercept.{
  InterceptRequestPayload, candidate_from_payload, candidate_from_payload-api_key,
}
use agy_identity_bridge.Registry.Longest.{Resolves, resolve_record_by_model-Resolves}
use agy_identity_bridge.Registry.Ring.{
  last_of, Call, record_calls, history, recent_dashboard_events-record_calls,
}
use agy_identity_bridge.Spec.{ProviderSpec}
use agy_identity_bridge.Routes.{
  upstream_endpoint, known_upstream_routes, route_from_request_path, image_edits_endpoint,
  normalize_thinking_model_name, thinking_levels,
}
use agy_identity_bridge.Routes.Known.{upstream_endpoint-known, route_from_request_path_iff}
use agy_identity_bridge.Routes.Models.{normalize_thinking_model_name-append}
use agy_identity_bridge.Payload.{Body, not_json, into_map, panicked, force_streaming_payload}
use agy_identity_bridge.Text.{trim}
use agy_identity_bridge.Text.Equality.{==_iff}
use agy_identity_bridge.Payload.Panics.{is_json_space, force_streaming_payload_iff}
use agy_identity_bridge.Usage.{UsageTotals, UsageRecord, no_totals, recent_usage_records}
use agy_identity_bridge.Usage.Sums.{observe, counted, recent_usage_records-observe}
use agy_identity_bridge.Value.{object, field, no_fields, boolean, or_else}
use agy_identity_bridge.Config.{normalize_settings}
use agy_identity_bridge.Config.Load.{
  Decoded, decoded, plugin_id, load_plugin_configuration, parse_yaml_map, file_map,
}
use agy_identity_bridge.Config.Load.Choice.{
  settings_of, section_of, is_some, load_plugin_configuration-section,
}

abbrev provider : Text → MatchedProviderRecord
provider prefix = record { name = prefix; prefix = prefix; url = []; api_key = [] }

abbrev registry : List MatchedProviderRecord
registry = provider (text "agy") ∷ provider (text "AGY/pro") ∷ []

resolve_record_by_model-Resolves_example :
    Resolves registry
      (text "agy/pro/gemini" ∷ [])
      (resolve_record_by_model registry (text "agy/pro/gemini" ∷ []))
resolve_record_by_model-Resolves_example =
    resolve_record_by_model-Resolves registry (text "agy/pro/gemini" ∷ [])

abbrev calls : List Call
calls = (text "t1", text "WARN", text "one") ∷ (text "t2", [], []) ∷ []

recent_dashboard_events-record_calls_example :
    recent_dashboard_events (record_calls calls []) ≡ reverse (last_of 8 (history calls))
recent_dashboard_events-record_calls_example = recent_dashboard_events-record_calls calls

abbrev spec : ProviderSpec
spec = record {
  name = text "ln.Antigravity";
  prefix = text "agy";
  base_url = text "http://agy2api:8080/v1";
  api_keys = [];
  headers = [];
  priority = 0;
  source_priority = 0;
  disable_cooling = false;
  models = [];
  enabled = true;
}

upstream_endpoint-known_example :
    Memᴰ (upstream_endpoint (text "agy/m") [] [] (text "/admin") spec) known_upstream_routes
upstream_endpoint-known_example = upstream_endpoint-known (text "agy/m") [] [] (text "/admin") spec

route_from_request_path_iff_example :
    (route_from_request_path (text " /V1/images/edits") ≡ image_edits_endpoint)
    ↔ (to_lower (trim_space (text " /V1/images/edits")) ≡ image_edits_endpoint)
      ⊎ (to_lower (trim_space (text " /V1/images/edits")) ≡ text "/v1" ++ image_edits_endpoint)
route_from_request_path_iff_example =
    route_from_request_path_iff (text " /V1/images/edits") image_edits_endpoint
      (Memᴰ.tail (Memᴰ.tail (Memᴰ.head refl)))

abbrev levelled : Text
levelled = text "m" ++ (text "(" ++ (text "off" ++ text ")"))

off-known : any (λ known. text "off" == known) thinking_levels ≡ true
unfolding text ◌==◌
off-known = refl

levelled-trimmed : (trim_space (text "m") ≡ text "m") × (trim_space levelled ≡ levelled)
unfolding text trim_space
levelled-trimmed = (refl, refl)

normalize_thinking_model_name-append_example :
    normalize_thinking_model_name levelled
    ≡ (text "m", if text "off" == text "off" then text "none" else text "off")
normalize_thinking_model_name-append_example =
    normalize_thinking_model_name-append (text "m") (text "off") levelled-trimmed.0 off-known
      levelled-trimmed.1

-- A decoder that knows `null` only.
abbrev decode_null : Text → Body
decode_null payload = if trim is_json_space payload == text "null" then into_map none else not_json

true-ne-false : true ≡ false → ⊥
true-ne-false e = ground (arith, e)

not_json-nil : not_json ≡ into_map none → ⊥
not_json-nil e = cc

decode_null_lem :
    (p : Text) → (decode_null p ≡ into_map none) ↔ (trim is_json_space p ≡ text "null")
decode_null_lem p =
    if_cases (λ b. (b ≡ into_map none) ↔ (trim is_json_space p ≡ text "null"))
      (trim is_json_space p == text "null") (into_map none) not_json
      (λ e. ((λ _. (==_iff _ _).0 e), λ _. refl))
      (λ e.
        ((λ f. absurd (not_json-nil f)), λ f. absurd (true-ne-false (sym ((==_iff _ _).1 f) ∙ e))))

abbrev encode_none : Map → Option Text
encode_none body = none

force_streaming_payload_iff_example :
    (force_streaming_payload decode_null encode_none (text " null") ≡ panicked)
    ↔ (trim is_json_space (text " null") ≡ text "null")
force_streaming_payload_iff_example =
    force_streaming_payload_iff decode_null encode_none decode_null_lem (text " null")

abbrev totals : UsageTotals
totals = record no_totals { prompt_tokens = 3; completion_tokens = 4 }

abbrev observation : UsageRecord
observation = record {
  at = [];
  provider = text "ln.Antigravity";
  model = text "m";
  client_app = text "codex";
  principal = text "p";
  mode = text "stream";
  totals = totals;
}

recent_usage_records-observe_example :
    recent_usage_records (observe ((text "t1", observation) ∷ []) [])
    ≡ reverse (last_of 2048 (counted ((text "t1", observation) ∷ [])))
recent_usage_records-observe_example = recent_usage_records-observe ((text "t1", observation) ∷ [])

-- A decoder that finds the plugin's own section in every document.
abbrev own_section : Text → Decoded
own_section raw =
    decoded (
      object
        (field plugin_id (object (field (text "enabled") (boolean false) no_fields)) no_fields))

load_plugin_configuration-section_example :
    ((load_plugin_configuration own_section (text "a: b") none).settings
      ≡ normalize_settings (
          settings_of (
            or_else
              (section_of own_section (parse_yaml_map own_section (text "a: b")))
              (section_of own_section (file_map own_section none)))))
    × ((load_plugin_configuration own_section (text "a: b") none).plugin_config_found
        ≡ is_some (
            or_else
              (section_of own_section (parse_yaml_map own_section (text "a: b")))
              (section_of own_section (file_map own_section none))))
load_plugin_configuration-section_example =
    load_plugin_configuration-section own_section (text "a: b") none

abbrev request : InterceptRequestPayload
request = record {
  source_format = [];
  to_format = text "openai";
  model = text "agy/gemini";
  requested_model = [];
  stream = true;
  headers = [];
  body = [];
  metadata = none;
}

candidate_from_payload-api_key_example :
    (candidate_from_payload registry (record request {
      headers = (text "Authorization", text "Bearer client-key" ∷ []) ∷ [];
    })).api_key
    ≡ (candidate_from_payload registry request).api_key
candidate_from_payload-api_key_example =
    candidate_from_payload-api_key registry request
      ((text "Authorization", text "Bearer client-key" ∷ []) ∷ [])
