-- ===== src/Diagnostics/Report.antt =====
-- src/providers.go `scanProviderDiagnostics`: the report, and the records that are registered.
-- YAML, the host, URLs, sorting, the clock and the environment are parameters.
use agy_identity_bridge.Base.{
  ℕ, ◌⊎◌, inl, inr, Bool, false, not, ◌&&◌, ◌||◌, Option, List, [], ◌∷◌, ◌++◌, map, eqb,
  if◌then◌else◌, length, is_nil, any,
}
use agy_identity_bridge.Text.{Text, text, ◌==◌}
use agy_identity_bridge.Unique.{unique_strings}
use agy_identity_bridge.Value.{Map}
use agy_identity_bridge.Config.{PluginSettings, normalize_settings}
use agy_identity_bridge.Config.Secret.{hmac_secret, hmac_secret_source}
use agy_identity_bridge.Config.Selectors.{configured_selector_count}
use agy_identity_bridge.Config.Load.{
  PluginConfigSnapshot, Decoded, ParsedMap, parsed, refused, parse_yaml_map,
}
use agy_identity_bridge.Registry.{MatchedProviderRecord, DashboardEvent, recent_dashboard_events}
use agy_identity_bridge.Discovery.{
  DiscoveredProvider, HostAuthFileEntry, discover_open_ai_compatibility, discover_runtime_auths,
}
use agy_identity_bridge.Scan.{ParsedUrl, ProviderStatus, redact_url, ScanState, no_scan, scan_items}
use agy_identity_bridge.Spec.{ModelInfo, ProviderSpec, can_serve_models, primary_api_key}
use agy_identity_bridge.Diagnostics.{
  ProviderDiagnostics, model_ids_from_infos, published_model_ids_of,
}
use agy_identity_bridge.Diagnostics.Counters.{ExecutorRuntime, InterceptState}
use agy_identity_bridge.Diagnostics.Warnings.{
  prefix_warnings, prefixes_of, replacement_mode_of, mirror_warnings, status_warnings,
  last_warnings,
}

-- The records of the configuration document, and a warning where it cannot be read.
abbrev pub Discovered : Type 0
Discovered = List DiscoveredProvider × List Text

abbrev configured_of : ParsedMap → Discovered
configured_of (parsed root) = (discover_open_ai_compatibility root, [])
configured_of (refused error) = ([], text "provider config scan could not parse YAML" ∷ [])

abbrev runtime_auth_count_of : Text ⊎ List HostAuthFileEntry → ℕ
runtime_auth_count_of (inl error) = 0
runtime_auth_count_of (inr auths) = length auths

module _ (get_host_auth_json : Text → Option Map) where
  abbrev pub runtime_of : Text ⊎ List HostAuthFileEntry → Discovered
  runtime_of (inl error) = ([], (text "runtime auth scan unavailable: " ++ error) ∷ [])
  runtime_of (inr auths) = discover_runtime_auths get_host_auth_json auths

-- The state that the scan reads: the configuration, the environment, the answer of the host to the
-- list of auth files, the mirrored provider that `resolveProviderSpec` gives with its models, and
-- the counters.
pub record ScanInputs : Type 0 where
  pub snapshot : PluginConfigSnapshot
  pub env : Text
  pub auths : Text ⊎ List HostAuthFileEntry
  pub spec : ProviderSpec
  pub mirrored : Bool
  pub model_infos : List ModelInfo
  pub auth_ensured : Bool
  pub runtime : ExecutorRuntime
  pub intercepts : InterceptState
  pub events : List DashboardEvent
  pub version : Text
  pub now : Text

module _ (settings : PluginSettings) (i : ScanInputs) where
  -- The fields of the mirrored provider, where there is one.
  abbrev pub with_mirror : ProviderDiagnostics → Text → ProviderDiagnostics
  with_mirror out base_url =
      if not i.mirrored
      then record out {
        warnings =
            out.warnings
            ++ text
                "no configured openai-compatibility provider matched, so executor mode has nothing to mirror"
              ∷ [];
      }
      else record out {
        mirrored_provider = i.spec.name;
        mirrored_base_url = base_url;
        mirrored_has_api_key = not (is_nil (primary_api_key i.spec));
        mirrored_priority = i.spec.priority;
        mirrored_disable_cooling = i.spec.disable_cooling;
        mirrored_provider_enabled = i.spec.enabled;
        provider_original_enabled = i.spec.enabled;
        mirrored_model_count = length i.model_infos;
        mirrored_model_ids = model_ids_from_infos i.model_infos;
        published_model_ids =
            if can_serve_models settings i.spec
            then published_model_ids_of i.model_infos i.spec settings
            else [];
        models_served = can_serve_models settings i.spec;
        replacement_mode = replacement_mode_of settings i.spec;
        warnings = out.warnings ++ mirror_warnings settings i.spec (length i.model_infos);
      }

module _ (yaml : Text → Decoded) where
  abbrev pub found_in : PluginConfigSnapshot → Discovered
  found_in snapshot =
      if is_nil snapshot.config_yaml
      then ([], [])
      else configured_of (parse_yaml_map yaml snapshot.config_yaml)

-- The order of the registered records is that of `range` over a map, then of a stable sort; a status
-- is sorted by its name, source and key.
module _ (yaml : Text → Decoded) (get_host_auth_json : Text → Option Map)
    (parse_url : Text → Option ParsedUrl) (print_url : ParsedUrl → Text)
    (arrange : List MatchedProviderRecord → List MatchedProviderRecord)
    (sort_statuses : List ProviderStatus → List ProviderStatus) where
  -- The fields that the scan itself fills.
  abbrev pub scanned :
      PluginSettings
      → ScanInputs
      → List DiscoveredProvider
      → List Text
      → ScanState
      → List MatchedProviderRecord
      → ProviderDiagnostics
  scanned settings i discovered scan_warnings st records = record {
    version = i.version;
    enabled = settings.enabled;
    priority = settings.priority;
    auto_discover = settings.auto_discover;
    include_native_antigravity = settings.include_native_antigravity;
    match_mode = settings.match_mode;
    match_name = settings.match_name;
    match_url = redact_url parse_url print_url settings.match_url;
    match_api_key_configured = not (is_nil settings.match_api_key);
    match_provider = settings.match_provider;
    match_providers = settings.match_providers;
    match_model = settings.match_model;
    match_models = settings.match_models;
    configured_selector_count = configured_selector_count settings;
    hmac_secret_configured =
        not (is_nil (hmac_secret i.env settings))
        || (settings.hmac_secret_source == text "provider_api_key"
            && any (λ status. status.api_key_configured) st.providers);
    hmac_secret_source = hmac_secret_source i.env settings;
    config_path_found = i.snapshot.config_path_found;
    config_path = i.snapshot.config_path;
    plugin_config_found = i.snapshot.plugin_config_found;
    scanned_record_count = length discovered;
    configured_record_count = st.configured;
    runtime_record_count = st.runtime;
    runtime_auth_count = runtime_auth_count_of i.auths;
    matched_record_count = st.matched;
    matched_provider_count = length st.matched_keys;
    unmatched_record_count = st.unmatched;
    last_scan_at = i.now;
    scanned_providers = sort_statuses st.scanned_providers;
    providers = sort_statuses st.providers;
    mirrored_provider = [];
    mirrored_priority = 0;
    mirrored_disable_cooling = false;
    mirrored_model_count = 0;
    mirrored_has_api_key = false;
    mirrored_base_url = [];
    mirrored_model_ids = [];
    published_model_ids = [];
    executor_enabled = settings.executor_enabled;
    executor_provider = settings.executor_provider;
    executor_auth_ensured = i.auth_ensured;
    model_namespace = settings.model_namespace;
    mirrored_provider_enabled = false;
    replacement_mode = [];
    provider_original_enabled = false;
    agy2api_secret_configured = not (is_nil settings.agy2api_identity_secret);
    models_served = false;
    last_executor_status = i.runtime.last_status;
    last_executor_error_at = if eqb i.runtime.last_status 0 then [] else i.runtime.last_at;
    intercept_count = i.intercepts.count;
    last_intercept_at = i.intercepts.last_at;
    last_intercept_provider = i.intercepts.last_name;
    active_prefixes = unique_strings (prefixes_of records);
    recent_events = recent_dashboard_events i.events;
    warnings = i.snapshot.warnings ++ scan_warnings ++ prefix_warnings records;
  }

  abbrev pub finished :
      PluginSettings
      → ScanInputs
      → List DiscoveredProvider
      → ScanState
      → ProviderDiagnostics
      → ProviderDiagnostics
  finished settings i discovered st out = record out {
    warnings = unique_strings (
        out.warnings
        ++ status_warnings i.runtime.last_status (not (is_nil (hmac_secret i.env settings)))
        ++ last_warnings settings discovered st);
  }

  -- The diagnostics, and the records that are registered.
  unfoldable pub scan_provider_diagnostics :
      ScanInputs → ProviderDiagnostics × List MatchedProviderRecord
  unfolding scan_items published_model_ids_of
  scan_provider_diagnostics i =
      let settings = normalize_settings i.snapshot.settings in
      let configured = found_in yaml i.snapshot in
      let runtime = runtime_of get_host_auth_json i.auths in
      let discovered = configured.0 ++ runtime.0 in
      let st = scan_items parse_url print_url settings discovered no_scan in
      let records = arrange (map (λ entry. entry.1) st.seen) in
      (
        finished settings i discovered st (
            with_mirror settings i
              (scanned settings i discovered (configured.1 ++ runtime.1) st records)
              (redact_url parse_url print_url i.spec.base_url)),
        records,
      )
