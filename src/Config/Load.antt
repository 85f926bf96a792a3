-- ===== src/Config/Load.antt =====
-- src/config.go: which part of a YAML document is the plugin's own, how it is read into settings,
-- and which of the two documents wins. The YAML decoder and the files are parameters.
pub mod Choice
use agy_identity_bridge.Base.{
  Bool, true, false, not, ◌||◌, Option, none, some, List, [], ◌∷◌, ◌++◌, if◌then◌else◌, is_nil, any,
}
use agy_identity_bridge.Text.{Text, text, trim_space}
use agy_identity_bridge.Value.{
  Value, Map, as_map, map_value, map_value_by_normalized_key, bind, or_zero, or_else, string_value,
  bool_value, int_value, string_slice_value,
}
use agy_identity_bridge.Config.{PluginSettings, default_plugin_settings, normalize_settings}

abbrev pub plugin_id : Text
plugin_id = text "agy-identity-bridge"

-- A key with underscores, and its spelling with dashes.
abbrev spellings : Text → Text → List Text
spellings a b = a ∷ b ∷ []

unfoldable pub settings_from_map : PluginSettings → Option Map → PluginSettings
settings_from_map base none = normalize_settings base
settings_from_map base (some raw) = normalize_settings (record base {
  enabled = or_zero base.enabled (bool_value raw (text "enabled" ∷ []));
  priority = or_zero base.priority (int_value raw (text "priority" ∷ []));
  auto_discover =
      or_zero base.auto_discover
        (bool_value raw (spellings (text "auto_discover") (text "auto-discover")));
  include_native_antigravity = or_zero base.include_native_antigravity (
      bool_value raw
        (spellings (text "include_native_antigravity") (text "include-native-antigravity")));
  allow_explicit_client_identity_headers = or_zero base.allow_explicit_client_identity_headers (
      bool_value raw (
        spellings (text "allow_explicit_client_identity_headers")
          (text "allow-explicit-client-identity-headers")));
  principal_fallback_mode = or_zero base.principal_fallback_mode (
      string_value raw
        (spellings (text "principal_fallback_mode") (text "principal-fallback-mode")));
  debug_logging =
      or_zero base.debug_logging
        (bool_value raw (spellings (text "debug_logging") (text "debug-logging")));
  match_mode =
      or_zero base.match_mode
        (string_value raw (spellings (text "match_mode") (text "match-mode")));
  match_name =
      or_zero base.match_name
        (string_value raw (spellings (text "match_name") (text "match-name")));
  match_url = or_zero base.match_url (
      string_value raw
        (text "match_url" ∷ text "match-url" ∷ text "base_url" ∷ text "base-url" ∷ []));
  match_api_key = or_zero base.match_api_key (
      string_value raw
        (text "match_api_key" ∷ text "match-api-key" ∷ text "api_key" ∷ text "api-key" ∷ []));
  match_provider =
      or_zero base.match_provider
        (string_value raw (spellings (text "match_provider") (text "match-provider")));
  match_providers =
      or_zero base.match_providers
        (string_slice_value raw (spellings (text "match_providers") (text "match-providers")));
  match_model =
      or_zero base.match_model
        (string_value raw (spellings (text "match_model") (text "match-model")));
  match_models =
      or_zero base.match_models
        (string_slice_value raw (spellings (text "match_models") (text "match-models")));
  hmac_secret =
      or_zero base.hmac_secret
        (string_value raw (spellings (text "hmac_secret") (text "hmac-secret")));
  hmac_secret_source =
      or_zero base.hmac_secret_source
        (string_value raw (spellings (text "hmac_secret_source") (text "hmac-secret-source")));
  agy2api_identity_secret = or_zero base.agy2api_identity_secret (
      string_value raw
        (spellings (text "agy2api_identity_secret") (text "agy2api-identity-secret")));
  executor_enabled =
      or_zero base.executor_enabled
        (bool_value raw (spellings (text "executor_enabled") (text "executor-enabled")));
  executor_provider =
      or_zero base.executor_provider
        (string_value raw (spellings (text "executor_provider") (text "executor-provider")));
  model_namespace =
      or_zero base.model_namespace
        (string_value raw (spellings (text "model_namespace") (text "model-namespace")));
})

unfoldable pub child_map : Text → Map → Option Map
child_map key root = bind (map_value root (key ∷ [])) as_map

unfoldable pub own_map : Map → Option Map
own_map root = bind (map_value_by_normalized_key root plugin_id) as_map

-- The keys that only a direct plugin subtree has.
abbrev pub plugin_keys : List Text
plugin_keys =
    text "enabled"
    ∷ text "priority"
    ∷ text "auto_discover"
    ∷ text "include_native_antigravity"
    ∷ text "allow_explicit_client_identity_headers"
    ∷ text "principal_fallback_mode"
    ∷ text "debug_logging"
    ∷ text "match_mode"
    ∷ text "match_name"
    ∷ text "match_url"
    ∷ text "match_api_key"
    ∷ text "match_provider"
    ∷ text "match_providers"
    ∷ text "match_model"
    ∷ text "match_models"
    ∷ text "hmac_secret"
    ∷ text "hmac_secret_source"
    ∷ text "agy2api_identity_secret"
    ∷ text "executor_enabled"
    ∷ text "executor_provider"
    ∷ text "model_namespace"
    ∷ []

abbrev pub has_key : Map → Text → Bool
has_key root key = elim (map_value root (key ∷ [])) [ none ↦ false | some _ ↦ true ]

unfoldable pub find_plugin_config : Map → Option Map
unfolding child_map own_map
find_plugin_config root =
    or_else
      (bind (child_map (text "plugins") root)
        (λ plugins. or_else (bind (child_map (text "configs") plugins) own_map) (own_map plugins)))
      (or_else (bind (child_map (text "configs") root) own_map)
        (or_else (own_map root) (if any (has_key root) plugin_keys then some root else none)))

unfoldable pub has_config_section : Option Map → Text → Bool
has_config_section none key = false
has_config_section (some root) key = has_key root key

pub record PluginConfigSnapshot : Type 0 where
  pub settings : PluginSettings
  pub config_yaml : Text
  pub config_path : Text
  pub config_path_found : Bool
  pub plugin_config_found : Bool
  pub warnings : List Text

-- The global copy of the configuration after the call.
unfoldable pub apply_plugin_configuration : PluginConfigSnapshot → PluginConfigSnapshot
apply_plugin_configuration snapshot = record snapshot {
  settings = normalize_settings snapshot.settings;
}

-- What the decoder makes of a document: a value, or an error with its text.
pub data Decoded : Type 0 where
  decoded : Value → Decoded
  failed : Text → Decoded

-- `parseYAMLMap`: the map and the error, of which at most one is there.
pub data ParsedMap : Type 0 where
  parsed : Option Map → ParsedMap
  refused : Text → ParsedMap

-- A config file that was found: its path and its bytes.
abbrev pub ConfigFile : Type 0
ConfigFile = Option (Text × Text)

abbrev pub found_map : ParsedMap → Option Map
found_map (parsed m) = m
found_map (refused _) = none

abbrev pub warn_if : Bool → Text → List Text
warn_if true w = w ∷ []
warn_if false w = []

abbrev pub parse_error : ParsedMap → List Text
parse_error (parsed m) = []
parse_error (refused e) = e ∷ []

abbrev pub file_raw : ConfigFile → Text
file_raw none = []
file_raw (some (path, raw)) = raw

module _ (yaml : Text → Decoded) where
  unfoldable pub parse_yaml_map : Text → ParsedMap
  parse_yaml_map raw =
      if is_nil (trim_space raw)
      then parsed none
      else elim (yaml raw) [ decoded v ↦ parsed (as_map v) | failed e ↦ refused e ]

  -- The settings and whether a plugin section was found, after one document.
  abbrev pub Found : Type 0
  Found = PluginSettings × Bool

  -- A section that is found sets the settings unless an earlier one did.
  abbrev pub take_section : Found → Option Map → Found
  take_section (settings, found) none = (settings, found)
  take_section (settings, true) (some cfg) = (settings, true)
  take_section (settings, false) (some cfg) = (settings_from_map settings (some cfg), true)

  unfoldable pub read_section : Found → Option Map → Found
  read_section so_far root = take_section so_far (bind root find_plugin_config)

  -- The document that provider discovery reads.
  unfoldable pub source_of : Text → Option Map → ConfigFile → Text
  source_of lifecycle root none = lifecycle
  source_of lifecycle root (some (path, raw)) = elim (parse_yaml_map raw) [
    | refused _ ↦ lifecycle
    | parsed _ ↦
        if has_config_section root (text "openai-compatibility")
          || has_config_section root (text "openai_compatibility")
        then lifecycle
        else raw
  ]

  abbrev pub file_map : ConfigFile → ParsedMap
  file_map none = parsed none
  file_map (some (path, raw)) = parse_yaml_map raw

  unfoldable pub load_plugin_configuration : Text → ConfigFile → PluginConfigSnapshot
  unfolding read_section source_of
  load_plugin_configuration lifecycle file =
      let root = parse_yaml_map lifecycle in
      let first = read_section (default_plugin_settings, false) (found_map root) in
      let (settings, found) = read_section first (found_map (file_map file)) in
      let source = source_of lifecycle (found_map root) file in
      record {
        settings = normalize_settings settings;
        config_yaml = if is_nil source then file_raw file else source;
        config_path = elim file [ none ↦ [] | some (path, _) ↦ path ];
        config_path_found = elim file [ none ↦ false | some _ ↦ true ];
        plugin_config_found = found;
        warnings =
            warn_if (not (is_nil (parse_error root)))
              (text "lifecycle config YAML could not be parsed")
            ++ warn_if (not (is_nil (parse_error (file_map file))))
                (text "mounted CPA config YAML could not be parsed")
            ++ (if is_nil (file_raw file) then parse_error root else []);
      }
