-- ===== src/Candidate.antt =====
-- src/providers.go `providerCandidate`: what is known of the provider that serves a request.
use agy_identity_bridge.Base.{Bool}
use agy_identity_bridge.Text.{Text}

pub record ProviderCandidate : Type 0 where
  pub name : Text
  pub provider_key : Text
  pub url : Text
  pub api_key : Text
  pub to_format : Text
  pub auth_id : Text
  pub model : Text
  pub requested_model : Text
  pub resolved_prefix : Text
  pub client_token : Text
  pub native : Bool
