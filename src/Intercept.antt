-- ===== src/Intercept.antt =====
-- src/providers.go `candidateFromPayload`: what a request tells of the provider that serves it.
use agy_identity_bridge.Base.{
  ◌≡◌, refl, ap, Bool, ◌||◌, Option, none, some, List, [], ◌∷◌, if◌then◌else◌, is_nil,
}
use agy_identity_bridge.Text.{Text, text, trim_space}
use agy_identity_bridge.Value.{Map}
use agy_identity_bridge.Candidate.{ProviderCandidate}
use agy_identity_bridge.Headers.{Headers, or_text, first_header_value, extract_bearer_token}
use agy_identity_bridge.Metadata.{metadata_string}
use agy_identity_bridge.Config.Selectors.{is_native_antigravity}
use agy_identity_bridge.Registry.{MatchedProviderRecord, resolve_record_by_model}

pub record InterceptRequestPayload : Type 0 where
  pub source_format : Text
  pub to_format : Text
  pub model : Text
  pub requested_model : Text
  pub stream : Bool
  pub headers : Headers
  pub body : Text
  pub metadata : Option Map

abbrev pub read_metadata : Option Map → List Text → Text
read_metadata none keys = []
read_metadata (some metadata) keys = metadata_string metadata keys

abbrev from_request : InterceptRequestPayload → ProviderCandidate
from_request payload =
    let read = read_metadata payload.metadata in
    let api_key =
      read (
        text "api_key" ∷ text "api-key" ∷ text "upstream_api_key" ∷ text "upstream-api-key" ∷ []) in
    record {
      name =
          or_text
            (read (
              text "provider_name"
              ∷ text "provider-name"
              ∷ text "provider"
              ∷ text "auth_provider"
              ∷ text "auth-provider"
              ∷ text "compat_name"
              ∷ text "compat-name"
              ∷ []))
            (first_header_value payload.headers
              (text "X-Provider-Name" ∷ text "X-AGY-Provider-Name" ∷ text "X-Auth-Provider" ∷ []));
      provider_key =
          or_text
            (read (
              text "provider_key"
              ∷ text "provider-key"
              ∷ text "compat_name"
              ∷ text "compat-name"
              ∷ []))
            (first_header_value payload.headers
              (text "X-Provider-Key" ∷ text "X-AGY-Provider-Key" ∷ []));
      url =
          or_text
            (read (
              text "base_url"
              ∷ text "base-url"
              ∷ text "provider_url"
              ∷ text "provider-url"
              ∷ text "url"
              ∷ []))
            (first_header_value payload.headers (
              text "X-Provider-Base-URL" ∷ text "X-Provider-URL" ∷ text "X-AGY-Provider-URL" ∷ []));
      api_key = api_key;
      to_format = trim_space payload.to_format;
      auth_id = read (
          text "selected_auth_id" ∷ text "selected-auth-id" ∷ text "auth_id" ∷ text "auth-id" ∷ []);
      model = trim_space payload.model;
      requested_model = trim_space payload.requested_model;
      resolved_prefix = [];
      client_token = if is_nil api_key then extract_bearer_token payload.headers else [];
      native = is_native_antigravity (trim_space payload.to_format);
    }

abbrev with_record : Option MatchedProviderRecord → ProviderCandidate → ProviderCandidate
with_record none c = c
with_record (some r) c = record c {
  resolved_prefix = r.prefix;
  name = or_text c.name r.name;
  provider_key = or_text c.provider_key r.name;
  url = or_text c.url r.url;
  api_key = or_text c.api_key r.api_key;
}

-- The name's last defaults, and whether the request is native.
abbrev with_name : ProviderCandidate → ProviderCandidate
with_name c =
    let name = or_text (or_text c.name c.provider_key) c.to_format in
    record c {
      name = name;
      native =
          if is_nil c.resolved_prefix
          then c.native || is_native_antigravity name || is_native_antigravity c.provider_key
          else c.native;
    }

unfoldable pub candidate_from_payload :
    List MatchedProviderRecord → InterceptRequestPayload → ProviderCandidate
unfolding resolve_record_by_model
candidate_from_payload records payload =
    let c = from_request payload in
    with_name (with_record (resolve_record_by_model records (c.requested_model ∷ c.model ∷ [])) c)

api_key-record :
    (r : Option MatchedProviderRecord) (a b : ProviderCandidate)
    → a.api_key ≡ b.api_key
    → (with_name (with_record r a)).api_key ≡ (with_name (with_record r b)).api_key
api_key-record none a b e = e
api_key-record (some r) a b e = ap (λ key. or_text key r.api_key) e

-- No header of a request becomes the provider's API key of its candidate, the client's own key in
-- the Authorization header least of all: two requests that differ in their headers only have
-- candidates with one API key.
pub candidate_from_payload-api_key :
    (records : List MatchedProviderRecord) (payload : InterceptRequestPayload) (headers : Headers)
    → (candidate_from_payload records (record payload { headers = headers })).api_key
      ≡ (candidate_from_payload records payload).api_key
unfolding candidate_from_payload
candidate_from_payload-api_key records payload headers =
    api_key-record
      (resolve_record_by_model records
        (trim_space payload.requested_model ∷ trim_space payload.model ∷ []))
      (from_request (record payload { headers = headers })) (from_request payload) refl
