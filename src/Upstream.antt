-- ===== src/Upstream.antt =====
-- src/executor.go: the request that the executor sends upstream. HMAC, base64, JSON and the parser of
-- URLs are parameters.
pub mod Signature
use agy_identity_bridge.Base.{Bool, not, ◌&&◌, Option, List, [], ◌∷◌, ◌++◌, if◌then◌else◌, is_nil}
use agy_identity_bridge.Text.{Text, text, trim_space}
use agy_identity_bridge.Value.{Map, put}
use agy_identity_bridge.Headers.{Headers, first_header_value, first_non_empty}
use agy_identity_bridge.Config.{PluginSettings}
use agy_identity_bridge.Config.Secret.{hmac_secret_for_candidate}
use agy_identity_bridge.Identity.{ClientIdentityContext, identity_signature_message}
use agy_identity_bridge.Spec.{ProviderSpec, upstream_base_url, primary_api_key, model_namespace}
use agy_identity_bridge.Routes.{upstream_endpoint, upstream_request_url, request_path_from_metadata}
use agy_identity_bridge.Payload.{Body, Outcome, returned, panicked, strip_payload_model_prefix}

pub record ExecutorRequest : Type 0 where
  pub auth_id : Text
  pub auth_provider : Text
  pub model : Text
  pub format : Text
  pub stream : Bool
  pub alt : Text
  pub headers : Headers
  pub payload : Text
  pub source_format : Text
  pub original_request : Text
  pub metadata : Option Map
  pub auth_attributes : List (Text × Text)
  pub host_callback_id : Text
  pub stream_id : Text

pub record HostHttpRequest : Type 0 where
  pub host_callback_id : Text
  pub method : Text
  pub url : Text
  pub headers : Headers
  pub body : Text

unfoldable pub settings_model_prefix : PluginSettings → ProviderSpec → Text
settings_model_prefix settings spec = model_namespace settings.model_namespace spec.prefix

-- `setIf`: a blank value sets nothing.
unfoldable pub set_if : Text → Text → Headers → Headers
unfolding put
set_if key value headers =
    if is_nil (trim_space value) then headers else put key (value ∷ []) headers

abbrev pub signature_header : Text
signature_header = text "X-AGY-Signature"

-- The calls of `setIf` in order.
abbrev pub set_all : List (Text × Text) → Headers → Headers
set_all [] headers = headers
set_all ((key, value) ∷ more) headers = set_all more (set_if key value headers)

abbrev pub identity_values :
    Text → ClientIdentityContext → ProviderSpec → ExecutorRequest → List (Text × Text)
identity_values version identity spec req =
    (text "X-AGY-Principal", identity.principal)
    ∷ (text "X-AGY-Client-App", identity.client_app)
    ∷ (text "X-AGY-Client-Instance", identity.client_instance)
    ∷ (text "X-AGY-Capability-Profile", identity.capability_profile)
    ∷ (text "X-AGY-Connector-Id", identity.connector_id)
    ∷ (text "X-AGY-Session-ID", identity.session_id)
    ∷ (text "X-AGY-Timestamp", identity.timestamp)
    ∷ (text "X-AGY-Plugin-Version", version)
    ∷ (text "X-AGY-CPA-Provider-Name", first_non_empty (identity.provider_name ∷ spec.name ∷ []))
    ∷ (text "X-AGY-Upstream-Model", req.model)
    ∷ (text "X-AGY-Provider", spec.name)
    ∷ []

-- `compute_hmac message secret` is the HMAC-SHA256 in hexadecimal; `env` is the value of
-- AGY_PLUGIN_SECRET.
module _ (compute_hmac : Text → Text → Text) (env : Text) (settings : PluginSettings) where
  unfoldable pub identity_headers :
      Text → ClientIdentityContext → ProviderSpec → ExecutorRequest → Text → Text → Headers
  unfolding set_if
  identity_headers version identity spec req method path =
      let secret = hmac_secret_for_candidate env settings (primary_api_key spec) in
      let plain = set_all (identity_values version identity spec req) [] in
      if not (is_nil secret) && not (is_nil identity.principal)
      then put signature_header
          (compute_hmac (identity_signature_message identity method path) secret ∷ []) plain
      else plain

-- `for key, values := range …`: the later headers replace the earlier ones.
abbrev pub put_all : Headers → Headers → Headers
put_all [] headers = headers
put_all ((key, values) ∷ more) headers = put_all more (put key values headers)

abbrev pub content_type_of : Headers → Text
content_type_of headers =
    let content_type = first_header_value headers (text "Content-Type" ∷ []) in
    if is_nil content_type then text "application/json" else content_type

-- The headers before those of the identity.
abbrev pub base_headers : ProviderSpec → ExecutorRequest → Headers
base_headers spec req =
    (text "Authorization", (text "Bearer " ++ primary_api_key spec) ∷ [])
    ∷ (text "User-Agent", text "agy-identity-bridge-executor" ∷ [])
    ∷ (text "Content-Type", content_type_of req.headers ∷ [])
    ∷ []

-- The error of the source, a panic in the rewriting of the body, or the request.
pub data Built : Type 0 where
  no_base_url : Built
  no_api_key : Built
  panic : Built
  built : HostHttpRequest → Built

abbrev pub with_body : (Text → HostHttpRequest) → Outcome → Built
with_body request panicked = panic
with_body request (returned payload) = built (request payload)

module _ (compute_hmac : Text → Text → Text) (env : Text) (settings : PluginSettings)
    (b64 : Text → Text) (unmarshal : Text → Body) (marshal : Map → Option Text)
    (url_path : Text → Option Text) where
  -- The request for an endpoint, without its body.
  abbrev pub request_to :
      Text → ExecutorRequest → ProviderSpec → ClientIdentityContext → Text → Text → HostHttpRequest
  request_to version req spec identity endpoint payload =
      let (url, signed_path) = upstream_request_url url_path (upstream_base_url spec) endpoint in
      record {
        host_callback_id = req.host_callback_id;
        method = text "POST";
        url = url;
        headers =
            put_all
              (identity_headers compute_hmac env settings version identity spec req (text "POST")
                signed_path)
              (base_headers spec req);
        body = b64 payload;
      }

  unfoldable pub build_upstream_request :
      Text → ExecutorRequest → ProviderSpec → ClientIdentityContext → Built
  unfolding upstream_endpoint upstream_request_url identity_headers strip_payload_model_prefix
  build_upstream_request version req spec identity =
      if is_nil (upstream_base_url spec)
      then no_base_url
      else if is_nil (primary_api_key spec)
      then no_api_key
      else with_body
          (request_to version req spec identity (
            upstream_endpoint req.model req.format req.alt (request_path_from_metadata req.metadata)
              spec))
          (strip_payload_model_prefix unmarshal marshal req.payload
            (settings_model_prefix settings spec))
