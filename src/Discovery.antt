-- ===== src/Discovery.antt =====
-- src/providers.go: provider records found in the configuration and in the auth files of the host,
-- and whether the settings match one.
use agy_identity_bridge.Base.{
  Bool, true, false, not, ◌&&◌, ◌||◌, Option, none, some, List, [], ◌∷◌, ◌++◌, map, if◌then◌else◌,
  is_nil,
}
use agy_identity_bridge.Text.{Text, text, trim_space, equal_fold}
use agy_identity_bridge.Value.{Map, string_value, string_or_empty, bool_or_false}
use agy_identity_bridge.Candidate.{ProviderCandidate}
use agy_identity_bridge.Headers.{or_text, display_provider_name}
use agy_identity_bridge.Config.{PluginSettings}
use agy_identity_bridge.Config.Selectors.{should_intercept_candidate, is_native_antigravity}
use agy_identity_bridge.Spec.Compat.{open_ai_compat_entries, compat_api_keys}

pub record DiscoveredProvider : Type 0 where
  pub name : Text
  pub label : Text
  pub provider_key : Text
  pub url : Text
  pub prefix : Text
  pub source : Text
  pub auth_index : Text
  pub active : Bool
  pub disabled : Bool
  pub native : Bool
  pub api_keys : List Text

unfoldable pub prefix_candidate_format : DiscoveredProvider → Text
prefix_candidate_format item = trim_space item.prefix

-- What the selectors see of a record, with one of its keys.
unfoldable pub keyed_candidate : DiscoveredProvider → Text → ProviderCandidate
unfolding prefix_candidate_format
keyed_candidate item key = record {
  name = item.name;
  provider_key = item.provider_key;
  url = item.url;
  api_key = key;
  to_format = prefix_candidate_format item;
  auth_id = [];
  model = [];
  requested_model = [];
  resolved_prefix = [];
  client_token = [];
  native = item.native;
}

-- A record without a key is one candidate without a key.
abbrev pub candidate_keys : List Text → List Text
candidate_keys [] = [] ∷ []
candidate_keys (key ∷ keys) = key ∷ keys

abbrev pub first_match : Bool × List Text → Bool × List Text → Bool × List Text
first_match (true, matched_by) later = (true, matched_by)
first_match (false, _) later = later

unfoldable pub match_candidates : PluginSettings → List ProviderCandidate → Bool × List Text
match_candidates settings [] = (false, [])
match_candidates settings (c ∷ cs) =
    first_match (should_intercept_candidate settings c) (match_candidates settings cs)

unfoldable pub match_discovered_provider : PluginSettings → DiscoveredProvider → Bool × List Text
unfolding match_candidates keyed_candidate
match_discovered_provider settings item =
    match_candidates settings (map (keyed_candidate item) (candidate_keys item.api_keys))

-- The record of one openai-compatibility section.
unfoldable pub compat_provider : Map → DiscoveredProvider
unfolding compat_api_keys
compat_provider provider =
    let name = string_or_empty provider (text "name" ∷ []) in
    let disabled = bool_or_false provider (text "disabled" ∷ []) in
    record {
      name = name;
      label = [];
      provider_key = name;
      url = string_or_empty provider (text "base-url" ∷ text "base_url" ∷ text "url" ∷ []);
      prefix = string_or_empty provider (text "prefix" ∷ []);
      source = text "openai-compatibility";
      auth_index = [];
      active = not disabled;
      disabled = disabled;
      native = false;
      api_keys = compat_api_keys provider;
    }

unfoldable pub discover_open_ai_compatibility : Option Map → List DiscoveredProvider
unfolding compat_provider open_ai_compat_entries
discover_open_ai_compatibility root = map compat_provider (open_ai_compat_entries root)

-- `pluginapi.HostAuthFileEntry`, the fields that are read.
pub record HostAuthFileEntry : Type 0 where
  pub id : Text
  pub auth_index : Text
  pub name : Text
  pub entry_type : Text
  pub provider : Text
  pub label : Text
  pub status : Text
  pub disabled : Bool
  pub unavailable : Bool

unfoldable pub runtime_auth : HostAuthFileEntry → DiscoveredProvider
unfolding display_provider_name is_native_antigravity
runtime_auth entry =
    let provider = or_text (trim_space entry.provider) (trim_space entry.entry_type) in
    record {
      name = display_provider_name (provider ∷ entry.label ∷ entry.name ∷ []);
      label = trim_space entry.label;
      provider_key = provider;
      url = [];
      prefix = [];
      source = text "runtime-auth";
      auth_index = trim_space entry.auth_index;
      active =
          not entry.disabled
          && not entry.unavailable
          && not (equal_fold (trim_space entry.status) (text "disabled"));
      disabled = entry.disabled || entry.unavailable;
      native = is_native_antigravity provider || is_native_antigravity entry.entry_type;
      api_keys = [];
    }

abbrev or_text_option : Text → Option Text → Text
or_text_option a none = a
or_text_option a (some b) = b

-- `if key, ok := …; ok && key != "" { item.APIKeys = []string{key} }`
abbrev one_key : Option Text → List Text
one_key none = []
one_key (some []) = []
one_key (some (c ∷ key)) = (c ∷ key) ∷ []

abbrev with_raw_provider : Option Text → DiscoveredProvider → DiscoveredProvider
with_raw_provider none item = item
with_raw_provider (some raw) item = record item {
  native = item.native || is_native_antigravity raw;
  provider_key = or_text item.provider_key raw;
}

-- The details of the auth file; `none` where the host does not give them.
unfoldable pub with_auth_json : DiscoveredProvider → Option Map → DiscoveredProvider × List Text
unfolding is_native_antigravity
with_auth_json item none =
    (item, if item.native then text "native auth details unavailable" ∷ [] else [])
with_auth_json item (some raw) = (
  with_raw_provider (string_value raw (text "provider" ∷ text "type" ∷ [])) (record item {
    url =
        or_text_option item.url
          (string_value raw (text "base_url" ∷ text "base-url" ∷ text "url" ∷ []));
    api_keys = one_key (string_value raw (text "api_key" ∷ text "api-key" ∷ []));
  }),
  [],
)

-- The host's `auth.get`.
module _ (get_host_auth_json : Text → Option Map) where
  unfoldable pub runtime_provider : HostAuthFileEntry → DiscoveredProvider × List Text
  unfolding runtime_auth with_auth_json
  runtime_provider entry =
      let item = runtime_auth entry in
      let auth_index = or_text item.auth_index (trim_space entry.id) in
      if is_nil auth_index then (item, []) else with_auth_json item (get_host_auth_json auth_index)

  abbrev add_provider :
      DiscoveredProvider × List Text
      → List DiscoveredProvider × List Text
      → List DiscoveredProvider × List Text
  add_provider (item, warned) (out, warnings) = (item ∷ out, warned ++ warnings)

  unfoldable pub discover_runtime_auths :
      List HostAuthFileEntry → List DiscoveredProvider × List Text
  unfolding runtime_provider
  discover_runtime_auths [] = ([], [])
  discover_runtime_auths (entry ∷ entries) =
      add_provider (runtime_provider entry) (discover_runtime_auths entries)
