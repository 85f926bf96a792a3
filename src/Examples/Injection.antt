-- ===== src/Examples/Injection.antt =====
-- Witnesses about the interceptor and the usage page.
use agy_identity_bridge.Base.{
  ◌+◌, ◌%◌, ◌≡◌, refl, Bool, true, not, ◌&&◌, Option, none, some, List, [], ◌∷◌, ◌++◌,
  if◌then◌else◌, is_nil,
}
use agy_identity_bridge.Text.{Text, text}
use mathlib.Core.List.{Permᴰ}
use agy_identity_bridge.Int64.{word}
use agy_identity_bridge.Value.{get}
use agy_identity_bridge.Config.{default_plugin_settings}
use agy_identity_bridge.Config.Secret.{hmac_secret_for_candidate}
use agy_identity_bridge.Config.Selectors.{should_intercept_candidate}
use agy_identity_bridge.Candidate.{ProviderCandidate}
use agy_identity_bridge.Identity.{
  ClientIdentityContext, identity_signature_message, derive_client_identity_from_intercept,
}
use agy_identity_bridge.Intercept.{InterceptRequestPayload, candidate_from_payload}
use agy_identity_bridge.Spec.Extract.{no_spec}
use agy_identity_bridge.Routes.{request_path_from_metadata, signed_upstream_path}
use agy_identity_bridge.Upstream.{signature_header}
use agy_identity_bridge.Dispatch.{
  InterceptResponsePayload, InterceptInputs, Noted, intercept_payload,
}
use agy_identity_bridge.Dispatch.HeaderTable.{look, identity_table}
use agy_identity_bridge.Dispatch.Injected.{intercept_payload-injects}
use agy_identity_bridge.Usage.{UsageRecord, no_totals}
use agy_identity_bridge.Usage.Summary.{
  Groups, group_usage_groups, group_usage_buckets, summarize_usage_records,
}
use agy_identity_bridge.Usage.Counts.{counts_of}
use agy_identity_bridge.Usage.Conservation.{sum_groups, group_usage_groups-summary}

abbrev payload : InterceptRequestPayload
payload = record {
  source_format = [];
  to_format = text "antigravity";
  model = text "agy/gemini";
  requested_model = [];
  stream = true;
  headers = (text "Authorization", text "Bearer client-key" ∷ []) ∷ [];
  body = [];
  metadata = none;
}

abbrev inputs : InterceptInputs
inputs = record {
  settings = default_plugin_settings;
  env = text "secret";
  records = [];
  spec = no_spec;
  version = text "1";
  timestamp = text "1700000000";
  clock = text "t1";
}

abbrev noted : Noted
noted = (record { count = 18446744073709551615; last_at = []; last_name = [] }, [])

abbrev digest : Text → Text
digest s = b'#' ∷ s

abbrev hmac : Text → Text → Text
hmac message secret = message ++ secret

abbrev no_path : Text → Option Text
no_path url = none

abbrev candidate : ProviderCandidate
candidate = candidate_from_payload [] payload

abbrev derived : ClientIdentityContext
derived =
    derive_client_identity_from_intercept digest (text "1700000000") payload.headers none
      default_plugin_settings

abbrev given : Bool
given =
    default_plugin_settings.enabled
    && ((should_intercept_candidate default_plugin_settings candidate).0
        && not (is_nil derived.principal))

abbrev secret : Text
secret = hmac_secret_for_candidate (text "secret") default_plugin_settings candidate.api_key

abbrev response : InterceptResponsePayload × Noted
response = intercept_payload digest hmac no_path inputs payload noted

abbrev identity : ClientIdentityContext
identity = record derived { provider_name = candidate.name }

abbrev signature : Text
signature =
    hmac
      (identity_signature_message identity (text "POST") (
        signed_upstream_path no_path payload.model payload.to_format []
          (request_path_from_metadata payload.metadata) no_spec))
      secret

intercept_payload-injects_example :
    (is_nil response.0.headers ≡ not given)
    × (response.1.0.count ≡ (if given then (noted.0.count + 1) % word else noted.0.count))
    × ((key : Text)
        → get key response.0.headers ≡ (
            if given
            then look key (
                (signature_header, if is_nil secret then none else some (signature ∷ []))
                ∷ identity_table (text "1") identity candidate.name)
            else none))
intercept_payload-injects_example =
    intercept_payload-injects digest hmac no_path inputs payload noted

abbrev use_of : Text → Text → UsageRecord
use_of model app = record {
  at = text "t1";
  provider = text "ln.Antigravity";
  model = model;
  client_app = app;
  principal = text "p1";
  mode = text "execute";
  totals = record no_totals { total_tokens = 18446744073709551615; cache_hit = true };
}

abbrev uses : List UsageRecord
uses =
    use_of (text "m1") (text "codex")
    ∷ use_of (text "m2") []
    ∷ use_of (text "m1") (text "cursor")
    ∷ []

abbrev same_groups : Groups → Groups
same_groups groups = groups

abbrev model_of : UsageRecord → Text
model_of r = r.model

abbrev time_of : UsageRecord → Text
time_of r = r.at

groups_perm : (groups : Groups) → Permᴰ groups groups
groups_perm [] = Permᴰ.nil
groups_perm (g ∷ groups) = Permᴰ.cons refl (groups_perm groups)

group_usage_groups-summary_example :
    (sum_groups (group_usage_groups same_groups model_of uses) ≡ counts_of uses)
    × (sum_groups (group_usage_buckets same_groups time_of uses) ≡ counts_of uses)
    × ((summarize_usage_records uses).counts ≡ counts_of uses)
group_usage_groups-summary_example =
    group_usage_groups-summary same_groups model_of time_of uses groups_perm
