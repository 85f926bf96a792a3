-- ===== src/Diagnostics/Warnings.antt =====
-- src/providers.go `scanProviderDiagnostics`: the warnings, prefixes and mode that it reports.
use agy_identity_bridge.Base.{
  ℕ, Bool, not, ◌&&◌, ◌||◌, List, [], ◌∷◌, ◌++◌, ltb, eqb, if◌then◌else◌, length, is_nil, any,
}
use agy_identity_bridge.Text.{Text, text, ◌==◌, trim_space}
use agy_identity_bridge.Int64.{Int64}
use agy_identity_bridge.Config.{PluginSettings}
use agy_identity_bridge.Config.Load.{warn_if}
use agy_identity_bridge.Registry.{MatchedProviderRecord}
use agy_identity_bridge.Discovery.{DiscoveredProvider}
use agy_identity_bridge.Scan.{ScanState}
use agy_identity_bridge.Spec.{ProviderSpec, can_serve_models}

abbrev pub prefix_warnings : List MatchedProviderRecord → List Text
prefix_warnings [] = []
prefix_warnings (r ∷ records) =
    warn_if (is_nil r.prefix) (
      text "matched provider "
      ++ r.name
      ++ text " has no prefix, so live requests to it cannot be identified by model prefix")
    ++ prefix_warnings records

abbrev pub prefixes_of : List MatchedProviderRecord → List Text
prefixes_of [] = []
prefixes_of (r ∷ records) =
    let rest = prefixes_of records in if is_nil r.prefix then rest else r.prefix ∷ rest

abbrev pub replacement_mode_of : PluginSettings → ProviderSpec → Text
replacement_mode_of settings spec =
    if not (is_nil (trim_space settings.model_namespace))
    then text "namespace"
    else if not spec.enabled
    then text "active"
    else text "withheld"

abbrev pub mirror_warnings : PluginSettings → ProviderSpec → ℕ → List Text
mirror_warnings settings spec count =
    warn_if (settings.executor_enabled && not (can_serve_models settings spec)) (
      text
        "executor mode is on but models are withheld: the mirrored provider is still enabled and model_namespace is empty, so publishing the same model IDs would let CLIProxyAPI load balance across both paths. Set model_namespace for a test, or disable the mirrored provider.")
    ++ warn_if (settings.executor_enabled && eqb count 0) (
        text
          "executor mode is on but the mirrored provider declares no models; clients would see an empty model list")
    ++ warn_if (replacement_mode_of settings spec == text "active") (
        text
          "executor mode is the only serving path for these models: re-enable the mirrored provider before disabling or uninstalling this plugin, or traffic will break")

abbrev pub status_warnings : Int64 → Bool → List Text
status_warnings status has_secret =
    if eqb status 401 || eqb status 403
    then (if has_secret
        then text
            "agy2api signature mismatch - verify AGY_IDENTITY_BRIDGE_SECRET matches the configured plugin secret"
        else text
            "agy2api rejected the upstream request - configure agy2api_identity_secret or AGY_PLUGIN_SECRET so the plugin can sign identity headers")
      ∷ []
    else []

abbrev pub native_without_key : DiscoveredProvider → Bool
native_without_key item = item.native && is_nil item.api_keys

abbrev pub last_warnings : PluginSettings → List DiscoveredProvider → ScanState → List Text
last_warnings settings discovered st =
    warn_if (not (is_nil settings.match_api_key) && any native_without_key discovered) (
      text
        "match_api_key is configured, but native OAuth Antigravity auth has no API key to compare")
    ++ warn_if (eqb st.matched 0 && ltb 0 (length discovered))
        (text "no scanned provider matches the current plugin rules")
    ++ warn_if (is_nil discovered) (
        text
          "no provider records were discovered; verify the mounted CPA config and runtime auth list")
