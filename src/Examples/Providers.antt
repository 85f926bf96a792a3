-- ===== src/Examples/Providers.antt =====
-- Witnesses about the mirrored provider: which section it is, what is published and saved of it.
use agy_identity_bridge.Text.{◌==◌}
use agy_identity_bridge.Auth.{reset_executor_auth_record_state}
use agy_identity_bridge.Auth.{save_auth_record}
use agy_identity_bridge.Auth.{auth_fingerprint}
use agy_identity_bridge.Value.{as_map}
use agy_identity_bridge.Value.{as_slice}
use agy_identity_bridge.Value.{normalized_map_key}
use agy_identity_bridge.Value.{find_normalized}
use agy_identity_bridge.Value.{map_value_by_normalized_key}
use agy_identity_bridge.Value.{bool_value}
use agy_identity_bridge.Value.{string_value}
use agy_identity_bridge.Value.{map_value}
use agy_identity_bridge.Base.{
  ◌≤◌, ◌<◌, ◌≡◌, refl, sym, ap, ◌∙◌, subst, Bool, true, false, Option, none, some, List, [], ◌∷◌,
  map, arith, is_nil, any, All,
}
use agy_identity_bridge.Text.{
  Text, text, trim_space, trim_dashes, to_lower, trim_suffix, split, join,
}
use agy_identity_bridge.Int64.{half}
use agy_identity_bridge.Value.{
  Map, string, entries, object, slice, item, no_items, field, no_fields, Fields, trimmed_texts,
}
use agy_identity_bridge.Config.{
  normalize_settings, normalize_match_mode, PluginSettings, default_plugin_settings,
}
use agy_identity_bridge.Config.Load.{PluginConfigSnapshot, Decoded, decoded, parsed, parse_yaml_map}
use agy_identity_bridge.Catalog.{
  ModelCache, cache_of, load_model_cache, load_model_catalog, save_model_cache,
  cached_model_specs_from_ids,
}
use agy_identity_bridge.Catalog.Stored.{saved}
use agy_identity_bridge.Catalog.RoundTrip.{save_model_cache-load}
use agy_identity_bridge.Unique.{unique_selectors, unique_strings}
use agy_identity_bridge.Discovery.{
  DiscoveredProvider, compat_provider, keyed_candidate, first_match, match_candidates,
  match_discovered_provider,
}
use agy_identity_bridge.Config.Selectors.{constant_time_equal, should_intercept_candidate}
use agy_identity_bridge.Spec.{upstream_base_url, primary_api_key, model_namespace, ProviderSpec}
use agy_identity_bridge.Spec.Compat.{compat_api_keys, open_ai_compat_entries}
use agy_identity_bridge.Spec.Extract.{no_spec, is_owned, is_live, extracted, extract_provider_spec}
use agy_identity_bridge.Spec.Choice.{
  is_mirrored, first_spec, preferred, extract_provider_spec-preferred,
  extract_provider_spec-priority,
}
use agy_identity_bridge.Models.{ProviderSpecCache}
use agy_identity_bridge.Models.Withheld.{ModelCall, responses, current_model_response-withheld}
use agy_identity_bridge.Auth.{auth_provider, auth_parts, ensure_auth_record, executor_auth_json}
use agy_identity_bridge.Text.Splitting.{IsFree, is_free→IsFree}
use agy_identity_bridge.Config.Keys.{normalize_executor_provider_key, normalize_provider_key}
use agy_identity_bridge.Auth.Saved.{
  IsPlain, AuthStep, ensure, reset, run, initial, last_accepted, auth_record,
  ensure_auth_record-auth_record,
}

-- A live section with one API key, which the settings select.
abbrev section : Fields
section = field (text "name") (string (text "a")) (
    field (text "url") (string (text "b")) (
      field (text "api-key-entries")
        (slice (item (object (field (text "key") (string (text "k")) no_fields)) no_items))
        no_fields))

abbrev document : Map
document = (text "openai-compatibility", slice (item (object section) no_items)) ∷ []

abbrev no_cache : Text → Option ModelCache
no_cache raw = none

abbrev settings : PluginSettings
settings = record default_plugin_settings {
  executor_enabled = true;
  match_api_key = text "k";
  executor_provider = text "e";
}

document-entries : open_ai_compat_entries (some document) ≡ entries section ∷ []
unfolding open_ai_compat_entries map_value map_value_by_normalized_key find_normalized ◌==◌
    normalized_map_key to_lower trim_space text as_slice as_map
document-entries = refl

abbrev found_item : DiscoveredProvider
found_item = record {
  name = text "a";
  label = [];
  provider_key = text "a";
  url = text "b";
  prefix = [];
  source = text "openai-compatibility";
  auth_index = [];
  active = true;
  disabled = false;
  native = false;
  api_keys = text "k" ∷ [];
}

section_provider : compat_provider (entries section) ≡ found_item
unfolding compat_provider compat_api_keys string_value bool_value map_value
    map_value_by_normalized_key find_normalized ◌==◌ normalized_map_key to_lower trim_space text
    as_slice as_map unique_strings
section_provider = refl

found_candidate :
    (should_intercept_candidate settings (keyed_candidate found_item (text "k"))).0 ≡ true
unfolding should_intercept_candidate keyed_candidate normalize_settings unique_selectors
    default_plugin_settings trim_space text constant_time_equal ◌==◌ normalize_match_mode to_lower
found_candidate = refl

first_match-true : (r later : Bool × List Text) → r.0 ≡ true → (first_match r later).0 ≡ true
first_match-true (true, matched_by) later h = refl
first_match-true (false, matched_by) later h = ground arith

found_matched : (match_discovered_provider settings found_item).0 ≡ true
unfolding match_discovered_provider match_candidates
found_matched =
    first_match-true (should_intercept_candidate settings (keyed_candidate found_item (text "k"))) _
      found_candidate

section-is_owned : is_owned settings (entries section) ≡ true
section-is_owned =
    ap (λ found. (match_discovered_provider settings found).0) section_provider ∙ found_matched

section-is_live : is_live (entries section) ≡ true
unfolding bool_value map_value map_value_by_normalized_key find_normalized ◌==◌ normalized_map_key
    to_lower trim_space text
section-is_live = refl

section_owned : any (is_owned settings) (open_ai_compat_entries (some document)) ≡ true
section_owned = rw document-entries (rw section-is_owned refl)

section_mirrored : any (is_mirrored settings) (open_ai_compat_entries (some document)) ≡ true
section_mirrored = rw document-entries (rw (section-is_owned, section-is_live) refl)

extract_provider_spec-preferred_example :
    let ms = open_ai_compat_entries (some document) in
    (extract_provider_spec no_cache none settings (some document) settings
      ≡ extracted no_cache none settings
          (preferred (first_spec (is_mirrored settings) ms) (first_spec (is_owned settings) ms)))
    × ((extract_provider_spec no_cache none settings (some document) settings).1
        ≡ any (is_owned settings) ms)
extract_provider_spec-preferred_example =
    extract_provider_spec-preferred no_cache none settings (some document) settings

extract_provider_spec-priority_example :
    (10 ≤ (extract_provider_spec no_cache none settings (some document) settings).0.priority)
    × ((extract_provider_spec no_cache none settings (some document) settings).0.priority < half)
extract_provider_spec-priority_example =
    extract_provider_spec-priority no_cache none settings (some document) settings
      (extract_provider_spec-preferred_example.1 ∙ section_owned)

abbrev yaml : Text → Decoded
yaml raw = decoded (
    object (field (text "openai-compatibility") (slice (item (object section) no_items)) no_fields))

abbrev snapshot : PluginConfigSnapshot
snapshot = record {
  settings = settings;
  config_yaml = text "x";
  config_path = [];
  config_path_found = false;
  plugin_config_found = true;
  warnings = [];
}

snapshot_parsed : parse_yaml_map yaml (text "x") ≡ parsed (some document)
unfolding parse_yaml_map as_map trim_space text
snapshot_parsed = refl

no_namespace : is_nil (trim_space settings.model_namespace) ≡ true
unfolding default_plugin_settings trim_space
no_namespace = refl

abbrev empty_cache : ProviderSpecCache
empty_cache = record { spec = no_spec; found = false; refresh = 0 }

abbrev two_calls : List ModelCall
two_calls = (1, text "t1", some (text "too early")) ∷ (2, text "t2", none) ∷ []

abbrev no_marshal : List (Text × Text) → Option Text
no_marshal fields = none

current_model_response-withheld_example :
    All
      (λ response. response.models ≡ [])
      (responses yaml no_cache none
        (λ infos. infos)
        no_marshal
        snapshot
        two_calls
        (empty_cache, initial))
current_model_response-withheld_example =
    current_model_response-withheld yaml no_cache none (λ infos. infos) no_marshal snapshot
      (some document) two_calls empty_cache initial snapshot_parsed section_mirrored no_namespace
      (λ e. ground arith)

abbrev ids : List Text
ids = text " image-1 " ∷ [] ∷ text "m" ∷ []

abbrev saved_cache : ModelCache
saved_cache = cache_of 7 (text "http://a/") (saved ids)

ids_given : is_nil (trimmed_texts ids) ≡ false
unfolding trimmed_texts trim_space text
ids_given = refl

save_model_cache-load_example :
    (load_model_catalog
        (λ raw. some saved_cache)
        (save_model_cache (λ cache. some (text "{}")) 7 (text "http://a/") ids none)
      ≡ cached_model_specs_from_ids ids)
    × (load_model_cache
          (λ raw. some saved_cache)
          (save_model_cache (λ cache. some (text "{}")) 7 (text "http://a/") ids none)
        ≡ unique_strings ids)
save_model_cache-load_example =
    save_model_cache-load (λ cache. some (text "{}")) (λ raw. some saved_cache) 7 (text "http://a/")
      ids none (text "{}", refl, refl) ids_given

-- A record that the host refuses at first, takes then, and is not asked to take again.
abbrev spec : ProviderSpec
spec = record no_spec { base_url = text "b/"; api_keys = text "k" ∷ []; enabled = true }

abbrev to_json : List (Text × Text) → Option Text
to_json fields = some (join [] (map (λ f. f.1) fields))

abbrev steps : List AuthStep
steps =
    ensure (text "t1") spec settings (some (text "too early"))
    ∷ reset
    ∷ ensure (text "t2") spec settings none
    ∷ []

abbrev parts : List Text
parts = text "e" ∷ text "b" ∷ text "k" ∷ [] ∷ []

spec_parts : auth_parts spec settings ≡ parts
unfolding auth_provider upstream_base_url primary_api_key model_namespace
    normalize_executor_provider_key normalize_provider_key default_plugin_settings trim_space text
    split trim_suffix trim_dashes
spec_parts = refl

parts_plain : All (IsFree 0) parts
unfolding text
parts_plain = (
  is_free→IsFree 0 (text "e") refl,
  (is_free→IsFree 0 (text "b") refl, (is_free→IsFree 0 (text "k") refl, (tt, tt))),
)

spec_plain : IsPlain spec settings
spec_plain = subst (λ p. All (IsFree 0) p) (sym spec_parts) parts_plain

skipped :
    (ensure_auth_record to_json
      (text "t3")
      spec
      settings
      (some (text "not asked"))
      (run to_json steps initial)).0
    ≡ none
unfolding ensure_auth_record auth_fingerprint executor_auth_json save_auth_record
    reset_executor_auth_record_state auth_provider upstream_base_url primary_api_key model_namespace
    normalize_executor_provider_key normalize_provider_key default_plugin_settings trim_space text
    split trim_suffix trim_dashes ◌==◌
skipped = refl

ensure_auth_record-auth_record_example :
    last_accepted
      (ensure_auth_record to_json
        (text "t3")
        spec
        settings
        (some (text "not asked"))
        (run to_json steps initial)).1.calls
    ≡ auth_record to_json (auth_parts spec settings)
ensure_auth_record-auth_record_example =
    ensure_auth_record-auth_record to_json steps (text "t3") spec settings (some (text "not asked"))
      (spec_plain, (tt, (spec_plain, tt))) spec_plain refl skipped
