-- ===== src/Executor/Context.antt =====
-- src/executor.go: what the handlers of the executor start from, keep and give back.
use agy_identity_bridge.Value.{Map}
use agy_identity_bridge.Headers.{Headers}
use agy_identity_bridge.Int64.{Int64}
use agy_identity_bridge.Config.{PluginSettings}
use agy_identity_bridge.Spec.{ProviderSpec}
use agy_identity_bridge.Registry.{DashboardEvent}
use agy_identity_bridge.Identity.{ClientIdentityContext}
use agy_identity_bridge.Payload.{Body}
use agy_identity_bridge.Stream.{Bridge}
use agy_identity_bridge.Upstream.{HostHttpRequest}
use agy_identity_bridge.Executor.{RawJson, Called}
use agy_identity_bridge.Base.{Bool, Option, List}
use agy_identity_bridge.Text.{Text}

-- The codecs, digests and clock that the handlers use, the settings, the provider that
-- `resolveProviderSpec` gives, and the answers of the host: to the request, and to the successive
-- reads of a stream. `decimal` prints an int, `parse_message` is the error of a bad request.
pub record ExecutorContext : Type 0 where
  pub sha256_hex : Text → Text
  pub compute_hmac : Text → Text → Text
  pub b64 : Text → Text
  pub unb64 : Text → Text
  pub decode : Text → Option Text
  pub unmarshal : Text → Body
  pub marshal : Map → Option Text
  pub json : RawJson
  pub url_path : Text → Option Text
  pub decimal : Int64 → Text
  pub parse_message : Text → Text
  pub settings : PluginSettings
  pub env : Text
  pub version : Text
  pub timestamp : Text
  pub clock : Text
  pub spec : Option ProviderSpec
  pub host_do : HostHttpRequest → Called
  pub host_do_stream : HostHttpRequest → Called
  pub reads : List Called
  pub accepts : List Text → Text → Bool

-- The arguments of a call of `recordUsageFromExecutorResponse`.
pub record UsageCall : Type 0 where
  pub body : Text
  pub headers : Headers
  pub provider : Text
  pub model : Text
  pub client_app : Text
  pub principal : Text
  pub mode : Text

pub record ExecutorWorld : Type 0 where
  pub last_status : Int64
  pub last_at : Text
  pub events : List DashboardEvent
  pub usage_calls : List UsageCall

pub record ExecutorEnvelope : Type 0 where
  pub payload : Text
  pub headers : Headers
  pub chunks : List Text

-- `errorEnvelopeStatus` of a code, a message and a status, `okEnvelope`, or a panic.
pub data Reply : Type 0 where
  error_reply : Text → Text → Int64 → Reply
  ok_reply : ExecutorEnvelope → Reply
  panic_reply : Reply

abbrev pub error_of : Text → Text → Reply
error_of code message = error_reply code message 0

-- What is known once the upstream request is built: `model` is the model that clients see.
pub record UpstreamCall : Type 0 where
  pub request : HostHttpRequest
  pub spec : ProviderSpec
  pub model : Text
  pub identity : ClientIdentityContext
  pub stream_id : Text

-- An early return, or the call to make.
pub data Prepared : Type 0 where
  failed : Reply → Prepared
  prepared : UpstreamCall → Prepared

-- `none` while the handler waits for the host; `pumped` is the work of the goroutine, where one
-- is started.
pub record StreamRun : Type 0 where
  pub reply : Option Reply
  pub world : ExecutorWorld
  pub pumped : Option (Option Bridge)
