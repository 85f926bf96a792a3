-- ===== src/Examples/Diagnostics.antt =====
-- Witnesses about the scan for providers, its public report, and the signature of a request.
use agy_identity_bridge.Base.{
  ◌+◌, ◌≡◌, refl, inr, true, false, Option, none, some, List, [], ◌∷◌, ◌++◌, All,
}
use agy_identity_bridge.Text.{Text, text}
use mathlib.Core.List.{Permᴰ}
use agy_identity_bridge.Value.{Map}
use agy_identity_bridge.Config.{default_plugin_settings, normalize_settings}
use agy_identity_bridge.Config.Load.{Decoded, failed}
use agy_identity_bridge.Registry.{MatchedProviderRecord}
use agy_identity_bridge.Discovery.{HostAuthFileEntry}
use agy_identity_bridge.Scan.{ParsedUrl, ProviderStatus}
use agy_identity_bridge.Scan.Owned.{IsOwned}
use agy_identity_bridge.Spec.{ProviderSpec}
use agy_identity_bridge.Identity.{ClientIdentityContext}
use agy_identity_bridge.Routes.{upstream_endpoint, request_path_from_metadata}
use agy_identity_bridge.Payload.{Body, not_json}
use agy_identity_bridge.Upstream.{ExecutorRequest, HostHttpRequest, request_to}
use agy_identity_bridge.Spec.Extract.{no_spec}
use agy_identity_bridge.Diagnostics.{ProviderDiagnostics, public_provider_diagnostics}
use agy_identity_bridge.Diagnostics.Hidden.{
  Private, with_private, public_provider_diagnostics-with_private,
}
use agy_identity_bridge.Diagnostics.Report.{ScanInputs, scan_provider_diagnostics}
use agy_identity_bridge.Diagnostics.Registered.{discovered, scan_provider_diagnostics-IsOwned}

abbrev entry : HostAuthFileEntry
entry = record {
  id = text "1";
  auth_index = [];
  name = text "auth.json";
  entry_type = text "antigravity";
  provider = [];
  label = text "operator@example.org";
  status = [];
  disabled = false;
  unavailable = false;
}

abbrev inputs : ScanInputs
inputs = record {
  snapshot = record {
    settings = default_plugin_settings;
    config_yaml = text "x";
    config_path = text "/config.yaml";
    config_path_found = true;
    plugin_config_found = true;
    warnings = [];
  };
  env = [];
  auths = inr (entry ∷ []);
  spec = no_spec;
  mirrored = false;
  model_infos = [];
  auth_ensured = false;
  runtime = record { last_status = 401; last_at = text "t0" };
  intercepts = record { count = 0; last_at = []; last_name = [] };
  events = [];
  version = text "1";
  now = text "t1";
}

abbrev refuse_yaml : Text → Decoded
refuse_yaml raw = failed (text "bad")

abbrev no_details : Text → Option Map
no_details auth_index = none

abbrev no_url : Text → Option ParsedUrl
no_url raw = none

abbrev print_rest : ParsedUrl → Text
print_rest url = url.rest

abbrev same_statuses : List ProviderStatus → List ProviderStatus
same_statuses statuses = statuses

perm_refl : (records : List MatchedProviderRecord) → Permᴰ records records
perm_refl [] = Permᴰ.nil
perm_refl (r ∷ records) = Permᴰ.cons refl (perm_refl records)

abbrev report : ProviderDiagnostics × List MatchedProviderRecord
report =
    scan_provider_diagnostics refuse_yaml no_details no_url print_rest (λ records. records)
      same_statuses inputs

scan_provider_diagnostics-IsOwned_example :
    All
      (IsOwned
        (normalize_settings inputs.snapshot.settings)
        (discovered refuse_yaml no_details inputs))
      report.1
    × (report.0.matched_record_count + report.0.unmatched_record_count
        ≡ report.0.scanned_record_count)
scan_provider_diagnostics-IsOwned_example =
    scan_provider_diagnostics-IsOwned refuse_yaml no_details no_url print_rest (λ records. records)
      same_statuses inputs perm_refl

abbrev private_values : Private
private_values = record {
  config_path = text "/etc/other.yaml";
  config_path_found = false;
  match_name = text "secret-name";
  match_url = [];
  match_provider = [];
  match_providers = text "ln.*" ∷ [];
  match_model = [];
  match_models = [];
  scanned_providers = [];
  mirrored_base_url = text "http://internal/v1";
  url = λ status. text "http://internal/v1";
  auth_index = λ status. text "7";
  label = λ status. text "someone@example.org";
}

public_provider_diagnostics-with_private_example :
    public_provider_diagnostics (with_private private_values report.0)
    ≡ public_provider_diagnostics report.0
public_provider_diagnostics-with_private_example =
    public_provider_diagnostics-with_private private_values report.0

abbrev identity : ClientIdentityContext
identity = record {
  principal = text "p1";
  client_app = text "hermes";
  client_instance = [];
  capability_profile = [];
  connector_id = [];
  session_id = [];
  provider_name = [];
  timestamp = text "t0";
  client_key_hash = [];
  principal_source = [];
  explicit_identity = false;
}

abbrev spec : ProviderSpec
spec = record no_spec { base_url = text "http://a/v1"; api_keys = text "k" ∷ [] }

abbrev request : ExecutorRequest
request = record {
  auth_id = [];
  auth_provider = [];
  model = text "gemini";
  format = text "openai";
  stream = false;
  alt = [];
  headers = [];
  payload = [];
  source_format = [];
  original_request = [];
  metadata = none;
  auth_attributes = [];
  host_callback_id = [];
  stream_id = [];
}

-- An HMAC that keeps its arguments.
abbrev hmac : Text → Text → Text
hmac message secret = message ++ secret

abbrev same_text : Text → Text
same_text s = s

abbrev refuse_json : Text → Body
refuse_json raw = not_json

abbrev refuse_map : Map → Option Text
refuse_map body = none

abbrev v1_path : Text → Option Text
v1_path url = some (text "/v1/chat/completions")

abbrev endpoint : Text
endpoint =
    upstream_endpoint request.model request.format request.alt
      (request_path_from_metadata request.metadata) spec

abbrev upstream : HostHttpRequest
upstream =
    request_to hmac (text "secret") default_plugin_settings same_text refuse_json refuse_map v1_path
      (text "1") request spec identity endpoint []
